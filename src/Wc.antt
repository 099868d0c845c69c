-- ===== src/Wc.antt =====
-- programs/wc.c: counts of bytes, characters, lines or blanks.
mod Samples
pub mod Counts
pub mod Utf8
pub mod Whole
use Prim.Native.Nat.{bit_and}
use punchcardos.Prelude.{
  ℕ, zero, suc, ◌+◌, Bool, true, false, not, ◌&&◌, ◌||◌, Option, none, some, Bytes, List, [], ◌∷◌,
  ◌++◌, ltb, ◌==◌, if◌then◌else◌, length, codes, str_eq, is_space, deref,
}
use punchcardos.Sys.{
  ReadEvent, got, failed, Output, Written, count, eintr, error, write, exit_success, exit_failure,
}
use punchcardos.Timeconst.Decimal.{itoa}

-- `WC_TYPE_WORDS` and so on.
pub data CountType : Type 0 where
  words bytes lines chars : CountType

-- What one byte adds to the count.
unfoldable pub counts : CountType → ℕ → Bool
counts bytes b = true
counts lines b = b == b'\n'
counts words b = is_space b && not (b == b'\n')
counts chars b = not (bit_and b 0xC0 == 0x80)

-- The loop over the bytes of one `read`.
unfoldable pub count_chunk : CountType → Bytes → ℕ → ℕ
unfolding counts
count_chunk type [] n = n
count_chunk type (b ∷ bs) n = count_chunk type bs (if counts type b then n + 1 else n)

-- while ((rc = read(fd, &buf, BUFSIZ)) != 0): `none` is the return value -1.
unfoldable pub wc_loop : CountType → List ReadEvent → ℕ → Option ℕ
unfolding count_chunk
wc_loop type [] n = some n
wc_loop type (failed ∷ es) n = none
wc_loop type (got [] ∷ es) n = some n
wc_loop type (got (b ∷ bs) ∷ es) n = wc_loop type es (count_chunk type (b ∷ bs) n)

-- The files of the system, each with the reads that it gives.
pub record Files : Type 0 where
  pub stdin : List ReadEvent
  pub open_file : Bytes → Option (List ReadEvent)

-- A call of `printf` or `puts` that is checked: one write of the text, which must take something.
printed : Written → Bool
printed (count n) = ltb 0 n
printed eintr = false
printed error = false

unfoldable pub print : Bytes → Output → Bool × Output
unfolding printed
print text o = (printed (write text o).0, (write text o).1)

-- "%ld %s\n"
abbrev pub count_line : ℕ → Bytes → Bytes
count_line n name = itoa n ++ (b' ' ∷ (name ++ b'\n' ∷ []))

-- What follows the loop: the count is printed if `shown`.
pub report : Option ℕ → Bytes → Bool → Output → Option ℕ × Output
unfolding print
report none name shown o = (none, o)
report (some n) name false o = (some n, o)
report (some n) name true o =
    if (print (count_line n name) o).0
    then (some n, (print (count_line n name) o).1)
    else (none, (print (count_line n name) o).1)

opened : Files → Bytes → Option (List ReadEvent)
unfolding str_eq
opened fs name = if str_eq name (codes "-") then some fs.stdin else fs.open_file name

wc_opened : CountType → Bytes → Bool → Option (List ReadEvent) → Output → Option ℕ × Output
unfolding report wc_loop
wc_opened type name shown none o = (none, o)
wc_opened type name shown (some es) o = report (wc_loop type es 0) name shown o

unfoldable pub wc : CountType → Bytes → Bool → Files → Output → Option ℕ × Output
unfolding wc_opened opened
wc type name shown fs o = wc_opened type name shown (opened fs name) o

-- An argument that selects what is counted.
unfoldable pub type_arg : Bytes → Option CountType
unfolding str_eq
type_arg arg =
    if str_eq arg (codes "--bytes") || str_eq arg (codes "-c")
    then some bytes
    else if str_eq arg (codes "--chars") || str_eq arg (codes "-m")
    then some chars
    else if str_eq arg (codes "--lines") || str_eq arg (codes "-l")
    then some lines
    else if str_eq arg (codes "--words") || str_eq arg (codes "-w")
    then some words
    else none

next_type : Option CountType → CountType → CountType
next_type none type = type
next_type (some t) type = t

-- for (i = 1; i < argc; i++): the type and the files, or `none` for an option that is not understood.
unfoldable pub parse_args : List Bytes → CountType → Option (CountType × List Bytes)
unfolding type_arg next_type
parse_args [] type = some (type, [])
parse_args (arg ∷ args) type =
    let more = parse_args args (next_type (type_arg arg) type) in
    if length arg == 0 then more else elim (type_arg arg) [
      | some t ↦ more
      | none ↦ if deref arg == b'-' && ltb 1 (length arg) then none else some (type, arg ∷ args)
    ]

-- for (; i < argc; i++) of the files: the sum of the counts, or `none`.
unfoldable pub count_files : CountType → Files → List Bytes → ℕ → Output → Option ℕ × Output
unfolding wc
count_files type fs [] total o = (some total, o)
count_files type fs (name ∷ names) total o = elim (wc type name true fs o).0 [
  | none ↦ (none, (wc type name true fs o).1)
  | some n ↦ count_files type fs names (total + n) (wc type name true fs o).1
]

-- The line of the total, for more than one file.
finish : ℕ → Option ℕ × Output → ℕ × Output
unfolding print
finish files (none, o) = (exit_failure, o)
finish files (some total, o) =
    if ltb 1 files
    then (if (print (count_line total (codes "total")) o).0
        then (exit_success, (print (count_line total (codes "total")) o).1)
        else (exit_failure, (print (count_line total (codes "total")) o).1))
    else (exit_success, o)

print_count : Option ℕ × Output → ℕ × Output
unfolding print
print_count (none, o) = (exit_failure, o)
print_count (some n, o) =
    if (print (itoa n ++ b'\n' ∷ []) o).0
    then (exit_success, (print (itoa n ++ b'\n' ∷ []) o).1)
    else (exit_failure, (print (itoa n ++ b'\n' ∷ []) o).1)

run : Option (CountType × List Bytes) → Files → Output → ℕ × Output
unfolding finish print_count count_files
run none fs o = (exit_failure, o)
run (some (type, [])) fs o = print_count (wc type (codes "-") false fs o)
run (some (type, name ∷ names)) fs o =
    finish (length (name ∷ names)) (count_files type fs (name ∷ names) 0 o)

-- `main`, on the arguments behind the program's name.
unfoldable pub main : List Bytes → Files → Output → ℕ × Output
unfolding run parse_args
main args fs o = run (parse_args args words) fs o
