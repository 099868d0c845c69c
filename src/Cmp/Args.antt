-- ===== src/Cmp/Args.antt =====
-- The command line of programs/cmp.c.
use punchcardos.Cmp.{Flags, Files, cmp, exit_trouble}
use punchcardos.Prelude.{
  ℕ, Bool, true, false, not, ◌||◌, ◌&&◌, Option, none, some, Bytes, List, [], ◌∷◌, ltb, leb, ◌==◌,
  if◌then◌else◌, length, drop, deref, codes, str_eq,
}
use punchcardos.Sys.{Output, Outcome, returns}

abbrev pub no_flags : Flags
no_flags = record { print_bytes = false; verbose = false; silent = false }

abbrev set_print_bytes : Flags → Flags
set_print_bytes f = record f { print_bytes = true }

abbrev set_verbose : Flags → Flags
set_verbose f = record f { verbose = true }

abbrev set_silent : Flags → Flags
set_silent f = record f { silent = true }

-- for (int j = 1; j < arglen; j++): letters behind one dash.
unfoldable pub short_args : Bytes → Flags → Option Flags
short_args [] f = some f
short_args (c ∷ cs) f =
    let b = short_args cs (set_print_bytes f) in
    let l = short_args cs (set_verbose f) in
    let s = short_args cs (set_silent f) in
    if c == b'b' then b else if c == b'l' then l else if c == b's' then s else none

-- An argument behind two dashes.
unfoldable pub long_arg : Bytes → Flags → Option Flags
unfolding str_eq
long_arg arg f =
    if str_eq arg (codes "--print-bytes")
    then some (set_print_bytes f)
    else if str_eq arg (codes "--verbose")
    then some (set_verbose f)
    else if str_eq arg (codes "--silent") || str_eq arg (codes "--quiet")
    then some (set_silent f)
    else none

abbrev is_short : Bytes → Bool
is_short arg = leb 2 (length arg) && deref arg == b'-' && not (deref (drop 1 arg) == b'-')

abbrev is_long : Bytes → Bool
is_long arg =
    not (ltb (length arg) 2 || not (deref arg == b'-') || not (deref (drop 1 arg) == b'-'))

-- for (i = 1; i < argc - 1; i++): the last argument is never an option. `none` ends the program.
unfoldable pub parse_args : List Bytes → Flags → Option (Flags × List Bytes)
unfolding short_args long_arg
parse_args [] f = some (f, [])
parse_args (arg ∷ []) f = some (f, arg ∷ [])
parse_args (arg ∷ (next ∷ args)) f =
    let skip = parse_args (next ∷ args) f in
    let short = elim (short_args (drop 1 arg) f) as (λ _. Option (Flags × List Bytes)) [
      | none ↦ none
      | some f' ↦ parse_args (next ∷ args) f'
    ] in
    let long = elim (long_arg arg f) as (λ _. Option (Flags × List Bytes)) [
      | none ↦ none
      | some f' ↦ parse_args (next ∷ args) f'
    ] in
    if length arg == 0
    then skip
    else if is_short arg
    then short
    else if is_long arg
    then long
    else some (f, arg ∷ (next ∷ args))

-- A name that is not given is a null pointer; arguments behind the second name are passed over.
run : ℕ → ℕ → Files → Option (Flags × List Bytes) → Output → Outcome ℕ × Output
unfolding cmp
run g1 g2 fs none o = (returns exit_trouble, o)
run g1 g2 fs (some (f, names)) o = if f.verbose then (returns exit_trouble, o) else elim names [
  | [] ↦ cmp g1 g2 fs none none f o
  | file1 ∷ [] ↦ cmp g1 g2 fs (some file1) none f o
  | file1 ∷ file2 ∷ _ ↦ cmp g1 g2 fs (some file1) (some file2) f o
]

-- `main`, on the arguments behind the program's name.
unfoldable pub main : ℕ → ℕ → Files → List Bytes → Output → Outcome ℕ × Output
unfolding run parse_args
main g1 g2 fs args o = run g1 g2 fs (parse_args args no_flags) o
