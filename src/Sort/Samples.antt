-- ===== src/Sort/Samples.antt =====
-- Runs of programs/sort.c and programs/uniq.c on concrete texts.
use mathlib.Core.List.{Mem, Pairwise, Perm}
use mathlib.Core.List.Perm
use punchcardos.Prelude.{
  ◌≡◌, ◌↔◌, ◌≤◌, ◌<◌, ◌⊎◌, length, Option, refl, ℕ, zero, suc, true, false, none, some, List, [],
  ◌∷◌, Bytes, codes, str_eq, arith,
}
use punchcardos.Sort.Compare.Laws.{compare_normal-IsOrder}
use punchcardos.Sort.Compare.{compare_normal}
use punchcardos.Sort.Input.Text.{IsPlain, IsLine, AreLines, typed, Stops}
use punchcardos.Sort.Lines.Growth.{
  Reachable, IsWellFormed, filled, lines_append-filled, Appends, Reachable-Appends,
}
use punchcardos.Sort.Lines.{Heap, lines_append}
use punchcardos.Sort.Main.Output.{
  sort-prints_in_order, sort-prints_once, sort-overflow, uniq-squeezes,
}
use punchcardos.Sort.Main.Repeats.{squeeze, Below}
use punchcardos.Sort.Main.{print_all, parse_args, Files, cmp_of, sort, uniq}
use punchcardos.Sort.Quick.Order.{IsSorted}
use punchcardos.Sort.Quick.Whole.{quick_sort-IsSorted, quick_sort-perm}
use punchcardos.Sort.Quick.{quick_sort}
use punchcardos.Sys.{byte, returns, undefined, exit_success}

abbrev shopping : List Bytes
shopping = codes "pears" ∷ codes "figs" ∷ codes "pears" ∷ codes "figs and dates" ∷ []

quick_sort-IsSorted_example :
    (sorted : List Bytes) × (quick_sort 5 compare_normal 0 4 shopping ≡ some sorted)
    × Perm sorted shopping
    × IsSorted compare_normal sorted
quick_sort-IsSorted_example = quick_sort-IsSorted compare_normal shopping compare_normal-IsOrder

quick_sort-perm_example :
    quick_sort 3 compare_normal 0 2 (codes "b" ∷ codes "a" ∷ [])
    ≡ quick_sort 3 compare_normal 0 2 (codes "a" ∷ codes "b" ∷ [])
quick_sort-perm_example =
    quick_sort-perm compare_normal (codes "b" ∷ codes "a" ∷ []) (codes "a" ∷ codes "b" ∷ [])
      compare_normal-IsOrder (Perm.swap (codes "a") (codes "b") [])

one_line : Reachable (filled (some (codes "a") ∷ []))
one_line =
    Reachable.append (some (codes "a")) [] [] (Reachable.init [] [] refl)
      (lines_append-filled (some (codes "a")) [] (ground arith))

Reachable-Appends_example :
    IsWellFormed (filled (some (codes "a") ∷ []))
    × ((line : Option Bytes) (h : Heap)
        → Appends line
            (filled (some (codes "a") ∷ []))
            h
            (lines_append line (filled (some (codes "a") ∷ [])) h))
Reachable-Appends_example = Reachable-Appends (filled (some (codes "a") ∷ [])) one_line

a-IsLine : IsLine (codes "a")
a-IsLine = record {
  plain = IsPlain.cons (ground arith) (ground arith) (ground arith) IsPlain.nil;
  first = b'a';
  others = [];
  shape = refl;
  fits = ground arith;
}

b-IsLine : IsLine (codes "b")
b-IsLine = record {
  plain = IsPlain.cons (ground arith) (ground arith) (ground arith) IsPlain.nil;
  first = b'b';
  others = [];
  shape = refl;
  fits = ground arith;
}

abbrev letters : List Bytes
letters = codes "b" ∷ codes "a" ∷ codes "b" ∷ []

letters-AreLines : AreLines letters
letters-AreLines =
    AreLines.cons b-IsLine (AreLines.cons a-IsLine (AreLines.cons b-IsLine AreLines.nil))

-- The letters, a blank line, and one more letter that is not read.
abbrev files : Files
files = record { stdin = typed letters (byte b'\n' ∷ byte b'c' ∷ []); open_file = λ name. none }

sort-prints_in_order_example :
    (sorted : List Bytes) × (sort [] files [] ≡ (returns exit_success, print_all sorted))
    × Perm sorted letters
    × IsSorted (cmp_of false) sorted
unfolding parse_args
sort-prints_in_order_example =
    sort-prints_in_order false files [] letters _ _ refl refl
      (Stops.at_blank {rest = byte b'c' ∷ []}) letters-AreLines (ground arith) (ground arith)

sort-prints_once_example :
    (distinct : List Bytes) × (sort [] files (codes "-u" ∷ codes "-r" ∷ [])
      ≡ (returns exit_success, print_all distinct))
    × ((y : Bytes) → Mem y distinct ↔ Mem y letters)
    × Pairwise (Below (cmp_of true)) distinct
unfolding parse_args str_eq
sort-prints_once_example =
    sort-prints_once true files (codes "-u" ∷ codes "-r" ∷ []) letters _ _ refl refl
      (Stops.at_blank {rest = byte b'c' ∷ []}) letters-AreLines (ground arith) (ground arith)

uniq-squeezes_example : uniq [] files [] ≡ (returns exit_success, print_all (squeeze letters))
uniq-squeezes_example =
    uniq-squeezes files letters _ _ refl (Stops.at_blank {rest = byte b'c' ∷ []}) letters-AreLines
      (ground arith) (ground arith)

abbrev many : ℕ → List Bytes
many zero = []
many (suc n) = codes "a" ∷ many n

many-AreLines : (n : ℕ) → AreLines (many n)
many-AreLines zero = AreLines.nil
many-AreLines (suc n) = AreLines.cons a-IsLine (many-AreLines n)

abbrev long_file : Files
long_file = record { stdin = typed (many 129) []; open_file = λ name. none }

sort-overflow_example :
    ((length (many 129) ≤ 128)
      × ((text : Bytes) × (sort [] long_file [] ≡ (returns exit_success, text))))
    ⊎ ((128 < length (many 129)) × (sort [] long_file [] ≡ (undefined, [])))
unfolding parse_args
sort-overflow_example =
    sort-overflow (record { unique = false; reverse = false }) long_file [] (many 129) [] [] refl
      refl Stops.at_end (many-AreLines 129) (ground arith)
