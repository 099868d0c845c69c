-- ===== src/Tr.antt =====
-- programs/tr.c: translation of the characters of the standard input, as built with a C library.
mod Samples
pub mod Table
use punchcardos.Prelude.{
  ℕ, zero, suc, ◌%◌, Bool, true, false, ◌||◌, Option, none, some, Bytes, List, [], ◌∷◌, ◌++◌, ◌==◌,
  if◌then◌else◌, length, codes, str_eq, deref,
}
use punchcardos.Sys.{
  ByteEvent, byte, failed, Output, Written, count, eintr, error, write, exit_success, exit_failure,
}

-- char map[256], at the indices that a byte can be.
abbrev pub Map : Type 0
Map = ℕ → ℕ

unfoldable pub assign : ℕ → ℕ → Map → Map
assign c v map = λ x. if x == c then v else map x

-- for (i = 0; i < len1; i++): `set2` is what is left of it; behind its end stands the NUL.
unfoldable pub fill : Bytes → Bytes → Map → Map
unfolding assign
fill [] set2 map = map
fill (c ∷ set1) [] map = fill set1 [] (assign c 0 map)
fill (c ∷ set1) (d ∷ set2) map = fill set1 set2 (assign c d map)

unfoldable pub table : Bytes → Bytes → Map
unfolding fill
table set1 set2 = fill set1 set2 (λ x. x)

-- putchar(c) == EOF
put_failed : Written → Bool
put_failed (count zero) = true
put_failed (count (suc n)) = false
put_failed eintr = true
put_failed error = true

-- while ((c = getchar()) != EOF): a failed read is the end as well.
unfoldable pub tr_loop : Map → List ByteEvent → Output → ℕ × Output
unfolding put_failed
tr_loop map [] o = (exit_success, o)
tr_loop map (failed ∷ es) o = (exit_success, o)
tr_loop map (byte c ∷ es) o = elim (put_failed (write (map c ∷ []) o).0) [
  | true ↦ (exit_failure, (write (map c ∷ []) o).1)
  | false ↦ tr_loop map es (write (map c ∷ []) o).1
]

-- The flags that are parsed play no part in it.
unfoldable pub tr : Bytes → Bytes → List ByteEvent → Output → ℕ × Output
unfolding tr_loop table
tr set1 set2 es o = tr_loop (table set1 set2) es o

-- The flags that are recognised, and reported as not implemented.
unfoldable pub is_flag : Bytes → Bool
unfolding str_eq
is_flag arg =
    str_eq arg (codes "--complement")
    || str_eq arg (codes "-c")
    || str_eq arg (codes "-C")
    || str_eq arg (codes "--delete")
    || str_eq arg (codes "-d")
    || str_eq arg (codes "--squeeze-repeats")
    || str_eq arg (codes "-s")
    || str_eq arg (codes "--truncate-set1 ")
    || str_eq arg (codes "-t")

-- for (i = 1; i < argc - 1; i++): the last argument is never an option. `none` is a flag that is not
-- recognised.
unfoldable pub skip_options : List Bytes → Option (List Bytes)
unfolding is_flag
skip_options [] = some []
skip_options (arg ∷ []) = some (arg ∷ [])
skip_options (arg ∷ (next ∷ args)) =
    let more = skip_options (next ∷ args) in
    if length arg == 0
    then more
    else if is_flag arg
    then more
    else if deref arg == b'-'
    then none
    else some (arg ∷ (next ∷ args))

run : Option (List Bytes) → List ByteEvent → Output → ℕ × Output
unfolding tr
run none es o = (exit_failure, o)
run (some []) es o = (exit_failure, o)
run (some (set1 ∷ [])) es o = tr set1 [] es o
run (some (set1 ∷ (set2 ∷ []))) es o = tr set1 set2 es o
run (some (set1 ∷ (set2 ∷ (more ∷ args)))) es o = (exit_failure, o)

-- `main`, on the arguments behind the program's name.
unfoldable pub main : List Bytes → List ByteEvent → Output → ℕ × Output
unfolding run skip_options
main args es o = run (skip_options args) es o
