-- ===== src/Sort/Main/Output.antt =====
-- What the main functions of programs/sort.c and programs/uniq.c print for a text on their standard input.
use mathlib.Core.List.{Mem, Pairwise, Perm}
use mathlib.Core.List.Perm
use mathlib.Core.Logic.Iff
use punchcardos.Cmp.Compare.{bytes_of}
use punchcardos.Prelude.{
  suc, ◌≤◌, ◌<◌, ◌≡◌, ◌↔◌, refl, ◌∙◌, ap, Bool, true, false, List, [], ◌∷◌, Bytes, some, ◌==◌,
  length, length-append, arith, ==_ne, ◌⊎◌, inl, inr, leb, leb→le, Bool-cases,
}
use punchcardos.Sort.Array.{length-perm}
use punchcardos.Sort.Compare.Laws.{IsOrder, compare_normal-IsOrder, compare_reverse-IsOrder}
use punchcardos.Sort.Input.Text.{
  AreLines, typed, Stops, slots, holding, read_lines-typed, read_lines-overflow,
}
use punchcardos.Sort.Main.Repeats.{
  squeeze, print_unique-squeeze, squeeze-mem, squeeze-ascends, Below,
}
use punchcardos.Sort.Main.{
  print_all, Options, operands, parse_args, Files, rounds, next_operand, open_files, own_lines,
  cmp_of, printed, out_of, print_sorted, sort_lines, finish, start, main_parsed, sort, unique_lines,
  uniq,
}
use punchcardos.Sort.Quick.Order.{IsSorted}
use punchcardos.Sort.Quick.Whole.{quick_sort-IsSorted}
use punchcardos.Sort.Quick.{quick_sort}
use punchcardos.Sys.{ByteEvent, byte, returns, undefined, exit_success}

length-slots : (xs : List Bytes) → length (slots xs) ≡ length xs
length-slots [] = refl
length-slots (x ∷ xs) = ap suc (length-slots xs)

own_lines-slots : (xs : List Bytes) → own_lines (slots xs) ≡ some xs
unfolding own_lines
own_lines-slots [] = refl
own_lines-slots (x ∷ xs) = rw (own_lines-slots xs) refl

length-typed : (xs : List Bytes) (es : List ByteEvent) → length xs ≤ length (typed xs es)
unfolding typed
length-typed [] es = omega arith
length-typed (x ∷ xs) es =
    omega (arith, length-typed xs es, length-append (bytes_of x) (byte b'\n' ∷ typed xs es))

open_files-typed :
    (fs : Files) (xs : List Bytes) (es rest : List ByteEvent)
    → fs.stdin ≡ typed xs es
    → Stops es rest
    → AreLines xs
    → length xs ≤ 128
    → open_files fs [] (holding []) ≡ returns (holding (slots xs))
unfolding open_files next_operand
open_files-typed fs xs es rest e stop ls h =
    let enough : length xs < rounds (typed xs es) (holding []) =
      omega (arith, length-typed xs es) in
    rw e (rw (read_lines-typed _ xs [] es rest ls stop (omega arith) enough) refl)

open_files-overflow :
    (fs : Files) (xs : List Bytes) (es : List ByteEvent)
    → fs.stdin ≡ typed xs es
    → AreLines xs
    → 128 < length xs
    → open_files fs [] (holding []) ≡ undefined
unfolding open_files next_operand
open_files-overflow fs xs es e ls h =
    let enough : length xs < rounds (typed xs es) (holding []) =
      omega (arith, length-typed xs es) in
    rw e (rw (read_lines-overflow _ xs [] es ls (omega arith) (omega arith) enough) refl)

cmp_of-IsOrder : (reverse : Bool) → IsOrder (cmp_of reverse)
cmp_of-IsOrder false = compare_normal-IsOrder
cmp_of-IsOrder true = compare_reverse-IsOrder

-- What is printed, from the array that quick_sort leaves.
sort-of_sorted :
    (fs : Files) (args xs sorted : List Bytes) (o : Options) (es rest : List ByteEvent)
    → parse_args args (record { unique = false; reverse = false }) ≡ operands o []
    → fs.stdin ≡ typed xs es
    → Stops es rest
    → AreLines xs
    → 0 < length xs
    → length xs ≤ 128
    → quick_sort (suc (length xs)) (cmp_of o.reverse) 0 (length xs) xs ≡ some sorted
    → sort [] fs args ≡ printed o.unique sorted
unfolding sort main_parsed start finish sort_lines print_sorted
sort-of_sorted fs args xs sorted o es rest parsed e stop ls pos h q =
    let positive : (length (slots xs) == 0) ≡ false =
      rw (length-slots xs) (==_ne (length xs) 0 (ground arith)) in
    rw (parsed, open_files-typed fs xs es rest e stop ls h)
      (rw positive (rw (own_lines-slots xs, length-slots xs) (rw q refl)))

-- Any options without `--unique`, and a text of 1 to 128 lines, each of 1 to 8192 bytes other than NUL
-- and carriage return, that ends at the end of the file or with a blank line: what is printed is
-- an arrangement of these lines in ascending order, or in descending order with `--reverse`.
pub sort-prints_in_order :
    (reverse : Bool) (fs : Files) (args xs : List Bytes) (es rest : List ByteEvent)
    → parse_args args (record { unique = false; reverse = false })
      ≡ operands (record { unique = false; reverse = reverse }) []
    → fs.stdin ≡ typed xs es
    → Stops es rest
    → AreLines xs
    → 0 < length xs
    → length xs ≤ 128
    → (sorted : List Bytes) × (sort [] fs args ≡ (returns exit_success, print_all sorted))
      × Perm sorted xs
      × IsSorted (cmp_of reverse) sorted
unfolding printed
sort-prints_in_order reverse fs args xs es rest parsed e stop ls pos h =
    let s = quick_sort-IsSorted (cmp_of reverse) xs (cmp_of-IsOrder reverse) in
    let run = sort-of_sorted fs args xs s.0 _ es rest parsed e stop ls pos h s.1 in
    (s.0, run, s.2, s.3)

printed_unique :
    (sorted : List Bytes)
    → 0 < length sorted
    → printed true sorted ≡ (returns exit_success, print_all (squeeze sorted))
unfolding printed out_of
printed_unique [] h = absurd (omega arith)
printed_unique (x ∷ xs) h = ap out_of (print_unique-squeeze x xs)

-- With `--unique` and such a text, the printed lines are those of the text, each of them once, in
-- ascending order or with `--reverse` in descending order.
pub sort-prints_once :
    (reverse : Bool) (fs : Files) (args xs : List Bytes) (es rest : List ByteEvent)
    → parse_args args (record { unique = false; reverse = false })
      ≡ operands (record { unique = true; reverse = reverse }) []
    → fs.stdin ≡ typed xs es
    → Stops es rest
    → AreLines xs
    → 0 < length xs
    → length xs ≤ 128
    → (distinct : List Bytes) × (sort [] fs args ≡ (returns exit_success, print_all distinct))
      × ((y : Bytes) → Mem y distinct ↔ Mem y xs)
      × Pairwise (Below (cmp_of reverse)) distinct
sort-prints_once reverse fs args xs es rest parsed e stop ls pos h =
    let s = quick_sort-IsSorted (cmp_of reverse) xs (cmp_of-IsOrder reverse) in
    let run = sort-of_sorted fs args xs s.0 _ es rest parsed e stop ls pos h s.1 in
    let some_lines : 0 < length s.0 = omega (arith, length-perm s.2) in
    (
      squeeze s.0,
      run ∙ printed_unique s.0 some_lines,
      λ y. Iff.trans (squeeze-mem _ (cmp_of-IsOrder reverse) y s.0) (Perm.mem_iff s.2),
      squeeze-ascends (cmp_of reverse) (cmp_of-IsOrder reverse) s.0 s.3,
    )

overflow_lines :
    (o : Options) (fs : Files) (args xs : List Bytes) (es : List ByteEvent)
    → parse_args args (record { unique = false; reverse = false }) ≡ operands o []
    → fs.stdin ≡ typed xs es
    → AreLines xs
    → 128 < length xs
    → sort [] fs args ≡ (undefined, [])
unfolding sort main_parsed start finish
overflow_lines o fs args xs es parsed e ls h =
    rw parsed (rw (open_files-overflow fs xs es e ls h) refl)

printed_successfully :
    (unique : Bool) (sorted : List Bytes)
    → 0 < length sorted
    → (text : Bytes) × (printed unique sorted ≡ (returns exit_success, text))
unfolding printed
printed_successfully false sorted h = (print_all sorted, refl)
printed_successfully true sorted h = (print_all (squeeze sorted), printed_unique sorted h)

-- Options without operands and without `--help`, a text of one line or more, each of 1 to 8192 bytes other
-- than NUL and carriage return, that ends at the end of the file or with a blank line, and allocations
-- that succeed: either there are at most 128 lines and the program succeeds, or there are more,
-- the 129th is stored past the end of the array, and what the program does is undefined.
pub sort-overflow :
    (o : Options) (fs : Files) (args xs : List Bytes) (es rest : List ByteEvent)
    → parse_args args (record { unique = false; reverse = false }) ≡ operands o []
    → fs.stdin ≡ typed xs es
    → Stops es rest
    → AreLines xs
    → 0 < length xs
    → ((length xs ≤ 128) × ((text : Bytes) × (sort [] fs args ≡ (returns exit_success, text))))
      ⊎ ((128 < length xs) × (sort [] fs args ≡ (undefined, [])))
sort-overflow o fs args xs es rest parsed e stop ls pos = elim (Bool-cases (leb (length xs) 128)) [
  | inl few ↦
      let h = leb→le (length xs) 128 few in
      let s = quick_sort-IsSorted (cmp_of o.reverse) xs (cmp_of-IsOrder o.reverse) in
      let run = sort-of_sorted fs args xs s.0 o es rest parsed e stop ls pos h s.1 in
      let out = printed_successfully o.unique s.0 (omega (arith, length-perm s.2)) in
      inl (h, (out.0, run ∙ out.1))
  | inr many ↦
      let h : 128 < length xs = ground arith in
      inr (h, overflow_lines o fs args xs es parsed e ls h)
]

-- `uniq` without operands prints, of a text of 1 to 128 lines as for `sort`, each line that is not equal
-- to the one before it.
pub uniq-squeezes :
    (fs : Files) (xs : List Bytes) (es rest : List ByteEvent)
    → fs.stdin ≡ typed xs es
    → Stops es rest
    → AreLines xs
    → 0 < length xs
    → length xs ≤ 128
    → uniq [] fs [] ≡ (returns exit_success, print_all (squeeze xs))
unfolding uniq start finish unique_lines
uniq-squeezes fs xs es rest e stop ls pos h =
    let positive : (length (slots xs) == 0) ≡ false =
      rw (length-slots xs) (==_ne (length xs) 0 (ground arith)) in
    rw (open_files-typed fs xs es rest e stop ls h)
      (rw positive (rw (own_lines-slots xs) (printed_unique xs pos)))
