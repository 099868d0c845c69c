-- ===== src/Sort/Main.antt =====
-- print_all, print_unique and the main functions of programs/sort.c and programs/uniq.c. What they
-- write to the standard output is the second part of their result.
pub mod Repeats
pub mod Output
use Prim.Native.Nat.{Ordering}
use punchcardos.Prelude.{
  ℕ, zero, suc, ◌+◌, Bool, true, false, ◌||◌, List, [], ◌∷◌, ◌++◌, Bytes, Option, none, some,
  length, ◌==◌, if◌then◌else◌, codes, str_eq, is_prefix,
}
use punchcardos.Sort.Compare.{CmpFn, strcmp, compare_normal, compare_reverse}
use punchcardos.Sort.Input.{State, read_lines}
use punchcardos.Sort.Lines.{Heap, Lines, lines_init}
use punchcardos.Sort.Quick.{quick_sort}
use punchcardos.Sys.{ByteEvent, Outcome, returns, exits, undefined, exit_success, exit_failure}

unfoldable pub print_all : List Bytes → Bytes
print_all [] = []
print_all (x ∷ xs) = x ++ b'\n' ∷ print_all xs

-- `strcmp(a, b)` as a condition
abbrev pub differs : Bytes → Bytes → Bool
differs x y = elim (strcmp x y) [ Ordering.eq ↦ false | _ ↦ true ]

-- The loop of print_unique, behind the line before.
unfoldable pub print_changes : Bytes → List Bytes → Bytes
print_changes previous [] = []
print_changes previous (x ∷ xs) =
    if differs x previous then x ++ b'\n' ∷ print_changes x xs else print_changes x xs

-- The first line is printed without a look at the number of lines.
unfoldable pub print_unique : List Bytes → Outcome Bytes
unfolding print_changes
print_unique [] = undefined
print_unique (x ∷ xs) = returns (x ++ b'\n' ∷ print_changes x xs)

pub record Options : Type 0 where
  pub unique : Bool
  pub reverse : Bool

pub data Parsed : Type 0 where
  help : Parsed
  not_understood : Bytes → Parsed
  operands : Options → List Bytes → Parsed

unfoldable pub parse_args : List Bytes → Options → Parsed
parse_args [] o = operands o []
parse_args (arg ∷ args) o =
    if str_eq arg (codes "--help") || str_eq arg (codes "-h") || str_eq arg (codes "-?")
    then help
    else if str_eq arg (codes "--unique") || str_eq arg (codes "-u")
    then parse_args args (record o { unique = true })
    else if str_eq arg (codes "--reverse") || str_eq arg (codes "-r")
    then parse_args args (record o { reverse = true })
    else if str_eq arg (codes "-")
    then operands o (arg ∷ args)
    else if is_prefix (codes "-") arg
    then not_understood arg
    else operands o (arg ∷ args)

pub record Files : Type 0 where
  pub stdin : List ByteEvent
  pub open_file : Bytes → Option (List ByteEvent)

-- Enough rounds for read_lines: each reads an event, uses up an allocation or empties `linebuf`.
abbrev pub rounds : List ByteEvent → State → ℕ
rounds es st = length es + length st.heap + 2

next_operand :
    (List ByteEvent → State → Outcome State) → Outcome (List ByteEvent × State) → Outcome State
next_operand again (returns r) = again r.0 r.1
next_operand again (exits n) = exits n
next_operand again undefined = undefined
next_operand again Outcome.out_of_fuel = Outcome.out_of_fuel

-- for (; i < argc; i++), with what is left of the standard input. A file that cannot be opened makes
-- main return EXIT_FAILURE.
unfoldable pub read_operands :
    (Bytes → Option (List ByteEvent)) → List Bytes → List ByteEvent → State → Outcome State
unfolding next_operand
read_operands open_file [] stdin st = returns st
read_operands open_file (arg ∷ args) stdin st =
    if str_eq arg (codes "-")
    then next_operand (λ rest st'. read_operands open_file args rest st')
        (read_lines (rounds stdin st) stdin st)
    else elim (open_file arg) [
      | none ↦ exits exit_failure
      | some es ↦
          next_operand (λ rest st'. read_operands open_file args stdin st')
            (read_lines (rounds es st) es st)
    ]

unfoldable pub open_files : Files → List Bytes → State → Outcome State
unfolding next_operand read_operands
open_files fs [] st =
    next_operand (λ rest st'. returns st') (read_lines (rounds fs.stdin st) fs.stdin st)
open_files fs (arg ∷ args) st = read_operands fs.open_file (arg ∷ args) fs.stdin st

-- The strings that the slots of the array point to: `none` if one has no string of its own.
unfoldable pub own_lines : List (Option Bytes) → Option (List Bytes)
own_lines [] = some []
own_lines (none ∷ slots) = none
own_lines (some x ∷ slots) = elim (own_lines slots) [ none ↦ none | some xs ↦ some (x ∷ xs) ]

abbrev pub cmp_of : Bool → CmpFn
cmp_of false = compare_normal
cmp_of true = compare_reverse

out_of : Outcome Bytes → Outcome ℕ × Bytes
out_of (returns out) = (returns exit_success, out)
out_of (exits n) = (exits n, [])
out_of undefined = (undefined, [])
out_of Outcome.out_of_fuel = (Outcome.out_of_fuel, [])

printed : Bool → List Bytes → Outcome ℕ × Bytes
unfolding print_unique out_of
printed false a = (returns exit_success, print_all a)
printed true a = out_of (print_unique a)

print_sorted : Bool → Option (List Bytes) → Outcome ℕ × Bytes
unfolding printed
print_sorted unique none = (undefined, [])
print_sorted unique (some a) = printed unique a

sort_lines : Options → Lines → Option (List Bytes) → Outcome ℕ × Bytes
unfolding print_sorted
sort_lines o l none = (undefined, [])
sort_lines o l (some a) =
    print_sorted o.unique (quick_sort (suc l.len) (cmp_of o.reverse) 0 l.len a)

-- The end of a main function, behind the reading of the files.
finish : (Lines → Option (List Bytes) → Outcome ℕ × Bytes) → Outcome State → Outcome ℕ × Bytes
finish onward (returns st) =
    if st.lines.len == 0
    then (returns exit_success, [])
    else onward st.lines (own_lines st.lines.array)
finish onward (exits n) = (exits n, [])
finish onward undefined = (undefined, [])
finish onward Outcome.out_of_fuel = (Outcome.out_of_fuel, [])

start :
    Files
    → List Bytes
    → (Lines → Option (List Bytes) → Outcome ℕ × Bytes)
    → Option Lines × Heap
    → Outcome ℕ × Bytes
unfolding finish open_files
start fs args onward (none, h) = (returns exit_failure, [])
start fs args onward (some l, h) =
    finish onward (open_files fs args (record { linebuf = []; lines = l; heap = h }))

main_parsed : Heap → Files → Parsed → Outcome ℕ × Bytes
unfolding start sort_lines
main_parsed h fs help = (returns exit_success, [])
main_parsed h fs (not_understood arg) =
    (returns exit_failure, codes "Option not understood: " ++ (arg ++ b'\n' ∷ []))
main_parsed h fs (operands o args) = start fs args (sort_lines o) (lines_init h)

-- The main function of programs/sort.c, for the arguments behind the program's name.
unfoldable pub sort : Heap → Files → List Bytes → Outcome ℕ × Bytes
unfolding main_parsed parse_args
sort h fs args = main_parsed h fs (parse_args args (record { unique = false; reverse = false }))

unique_lines : Lines → Option (List Bytes) → Outcome ℕ × Bytes
unfolding printed
unique_lines l none = (undefined, [])
unique_lines l (some a) = printed true a

-- The main function of programs/uniq.c, whose loop over the options is commented out.
unfoldable pub uniq : Heap → Files → List Bytes → Outcome ℕ × Bytes
unfolding start unique_lines
uniq h fs args = start fs args unique_lines (lines_init h)
