-- ===== src/Head/Args.antt =====
-- The main function of programs/head.c.
pub mod Options
use punchcardos.Head.{read_bytes, read_lines, puts_nothing}
use punchcardos.Prelude.{
  ℕ, zero, suc, ◌+◌, ◌-◌, ◌*◌, ◌%◌, ◌^◌, ◌<◌, ◌≤◌, ◌≡◌, refl, Bool, true, false, not, ◌&&◌, ◌||◌,
  List, [], ◌∷◌, ◌++◌, Bytes, Option, none, some, length, ltb, leb, ◌==◌, if◌then◌else◌, codes,
  str_eq, deref, is_digit, is_space, lt→ltb, ==_ne, arith,
}
use punchcardos.Sys.{
  ReadEvent, Output, write, Outcome, returns, undefined, exit_success, exit_failure,
}
use punchcardos.Timeconst.Decimal.Print.{value_from, AllDigits, itoa-IsDecimal}
use punchcardos.Timeconst.Decimal.{itoa, int_max}

-- The value of the digits in front of a string.
abbrev pub leading_value : ℕ → Bytes → ℕ
leading_value n [] = n
leading_value n (c ∷ s) = if is_digit c then leading_value (n * 10 + (c - b'0')) s else n

-- An `int` as the number of 32 bits that it is stored as; `none` for a value that does not fit.
abbrev pub to_int : Bool → ℕ → Option ℕ
to_int negative n =
    if negative
    then (if leb n (2 ^ 31) then some ((2 ^ 32 - n) % 2 ^ 32) else none)
    else (if ltb n (2 ^ 31) then some n else none)

pub signed_value : Bytes → Option ℕ
signed_value [] = some 0
signed_value (c ∷ s) =
    if c == b'-'
    then to_int true (leading_value 0 s)
    else if c == b'+'
    then to_int false (leading_value 0 s)
    else to_int false (leading_value 0 (c ∷ s))

-- `atoi` of the C library, whose result for a value out of range is not defined.
unfoldable pub atoi : Bytes → Option ℕ
unfolding signed_value
atoi [] = some 0
atoi (c ∷ s) = let rest = atoi s in if is_space c then rest else signed_value (c ∷ s)

-- `> 0`, for an `int`
abbrev pub positive : ℕ → Bool
positive n = ltb 0 n && ltb n (2 ^ 31)

-- What the next argument is.
pub data Next : Type 0 where
  any : Next
  bytes_value : Next
  lines_value : Next

pub record Settings : Type 0 where
  pub next_arg : Next
  pub zero_delim : Bool
  pub lines : ℕ
  pub bytes : ℕ
  pub file_name : Option Bytes

pub data Parsed : Type 0 where
  settings : Settings → Parsed
  version : Parsed
  usage : Parsed
  overflow : Parsed

abbrev unnamed : Option Bytes → Bool
unnamed none = true
unnamed (some name) = false

with_value : Option ℕ → (ℕ → Parsed) → Parsed
with_value none again = overflow
with_value (some n) again = again n

-- The branches for an argument that is not the value of an option. The last but one is for a name of one
-- byte behind another name.
option : Bytes → Settings → (Settings → Parsed) → Parsed
unfolding str_eq
option arg st again = elim (str_eq arg (codes "--bytes") || str_eq arg (codes "-c")) [
  | true ↦ again (record st { next_arg = bytes_value })
  | false ↦ elim (str_eq arg (codes "--lines") || str_eq arg (codes "-n")) [
    | true ↦ again (record st { next_arg = lines_value })
    | false ↦ elim (str_eq arg (codes "--zero-delimited") || str_eq arg (codes "-z")) [
      | true ↦ again (record st { zero_delim = true })
      | false ↦ elim (str_eq arg (codes "--version")) [
        | true ↦ version
        | false ↦ elim (ltb 0 (length arg) && (not (deref arg == b'-') && unnamed st.file_name)) [
          | true ↦ again (record st { file_name = some arg })
          | false ↦ elim ((length arg == 1) && not (deref arg == b'-')) [
            | true ↦ again (record st { file_name = none })
            | false ↦ usage
          ]
        ]
      ]
    ]
  ]
]

-- for (int i = 1; i < argc; i++)
unfoldable pub args_loop : List Bytes → Settings → Parsed
unfolding option with_value
args_loop [] st = settings st
args_loop (arg ∷ args) st = elim st.next_arg [
  | any ↦ option arg st (λ st'. args_loop args st')
  | bytes_value ↦
      with_value (atoi arg) (λ n. args_loop args (record st { bytes = n; next_arg = any }))
  | lines_value ↦
      with_value (atoi arg) (λ n. args_loop args (record st { lines = n; next_arg = any }))
]

-- The world of a run: the files, whether malloc succeeds and what its memory holds, and what becomes of
-- bytes written to the standard input and to the standard output.
pub record World : Type 0 where
  pub open_file : Bytes → Option (List ReadEvent)
  pub stdin : List ReadEvent
  pub allocated : Bool
  pub memory : ℕ → ℕ
  pub to_stdin : Output
  pub stdout : Output

pub record Ended : Type 0 where
  pub status : ℕ
  pub to_stdin : Output
  pub stdout : Output

print_first : World → Settings → List ReadEvent → Ended
print_first w st es =
    if positive st.bytes
    then (let r = read_bytes w.allocated w.memory es st.bytes w.to_stdin in
        record { status = r.0; to_stdin = r.1; stdout = w.stdout })
    else (let r = read_lines es st.lines st.zero_delim w.stdout in
        record { status = r.0; to_stdin = w.to_stdin; stdout = r.1 })

with_file : World → Settings → Option (List ReadEvent) → Ended
unfolding print_first
with_file w st none = record { status = exit_failure; to_stdin = w.to_stdin; stdout = w.stdout }
with_file w st (some es) = print_first w st es

named : World → Option Bytes → Option (List ReadEvent)
named w none = some w.stdin
named w (some name) = w.open_file name

-- VERSION and a newline
abbrev version_line : Bytes
version_line = codes "1.0.0" ++ b'\n' ∷ []

on_parsed : World → Parsed → Outcome Ended
unfolding with_file named
on_parsed w (settings st) = returns (with_file w st (named w st.file_name))
on_parsed w version = returns (record {
  status = exit_success;
  to_stdin = w.to_stdin;
  stdout = (write version_line w.stdout).1;
})
on_parsed w usage =
    returns
      (record { status = exit_failure; to_stdin = w.to_stdin; stdout = puts_nothing w.stdout })
on_parsed w overflow = undefined

abbrev pub initial : Settings
initial = record { next_arg = any; zero_delim = false; lines = 10; bytes = 0; file_name = none }

-- The main function on the arguments behind the program's name.
unfoldable pub head : World → List Bytes → Outcome Ended
unfolding on_parsed args_loop
head w args = on_parsed w (args_loop args initial)
