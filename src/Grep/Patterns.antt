-- ===== src/Grep/Patterns.antt =====
-- The file of patterns of programs/grep.c, the loop over patterns and files, and `main`.
use punchcardos.Grep.Args.{nothing, file_arg, Options, defaults, parse_args}
use punchcardos.Grep.Search.{Flags, Searched, exit_problem, grep}
use punchcardos.Prelude.{
  ℕ, Bool, true, false, not, ◌&&◌, ◌||◌, Option, none, some, Bytes, List, [], ◌∷◌, ◌++◌, ◌==◌,
  if◌then◌else◌, length, codes, str_eq,
}
use punchcardos.Sys.{
  ReadEvent, ByteEvent, byte, failed, Output, Outcome, returns, exits, undefined, out_of_fuel,
  exit_success, exit_failure,
}

-- What a call of `readline` gives: a line (its length plus one), a line that ends with the file (0),
-- or an error.
pub data Line : Type 0 where
  line : Bytes → Line
  last : Bytes → Line
  wrong : Line

-- `BUFSIZ`
abbrev bufsiz : ℕ
bufsiz = 8_192

-- The calls of `readline` on the file of patterns, one after the other, up to one that sees the end
-- of the file or an error. `linebuf` is what the buffer holds.
unfoldable pub readlines : List ByteEvent → Bytes → List Line
readlines [] linebuf = last linebuf ∷ []
readlines (failed ∷ es) linebuf = wrong ∷ []
readlines (byte c ∷ es) linebuf = elim (c == b'\r') [
  | true ↦ readlines es linebuf
  | false ↦ elim (c == b'\n') [
    | true ↦ line linebuf ∷ readlines es []
    | false ↦ elim (length linebuf == bufsiz) [
      | true ↦ wrong ∷ []
      | false ↦ readlines es (linebuf ++ c ∷ [])
    ]
  ]
]

-- The files of the system, each with what reading it gives: in blocks, or byte by byte.
pub record Files : Type 0 where
  pub open_file : Bytes → Option (List ReadEvent)
  pub open_patterns : Bytes → Option (List ByteEvent)

-- The standard input and output.
pub record Io : Type 0 where
  pub stdin : List ReadEvent
  pub out : Output

-- What the loops know of the runs so far: the last `rc`, and the state.
pub data Ran : Type 0 where
  ran : ℕ → Io → Ran
  ended : Outcome ℕ → Output → Ran

after_result : Outcome ℕ → Io → Ran
after_result (returns rc) io = ran rc io
after_result (exits n) io = ended (exits n) io.out
after_result undefined io = ended undefined io.out
after_result out_of_fuel io = ended out_of_fuel io.out

after_grep : Searched → Ran
unfolding after_result
after_grep s = after_result s.result (record { stdin = s.stdin; out = s.out })

with_stdin : List ReadEvent → Ran → Ran
with_stdin es (ran rc io) = ran rc (record io { stdin = es })
with_stdin es (ended r o) = ended r o

-- `fd` for one name: the standard input for "-".
one_file : Option Bytes → Flags → Files → Bytes → Io → Ran
unfolding after_grep with_stdin grep str_eq
one_file pattern fs sys name io = elim (str_eq name (codes "-")) [
  | true ↦ after_grep (grep pattern fs io.stdin io.out)
  | false ↦ elim (sys.open_file name) [
    | none ↦ ended (returns exit_problem) io.out
    | some es ↦ with_stdin io.stdin (after_grep (grep pattern fs es io.out))
  ]
]

after_file : Ran → (ℕ → Io → Ran) → Ran
after_file (ran rc io) again = again rc io
after_file (ended r o) again = ended r o

-- for (int j = start_of_files; j < argc; j++): `rc` is that of the last file.
unfoldable pub files_loop : Option Bytes → Flags → Files → List Bytes → ℕ → Io → Ran
unfolding after_file one_file
files_loop pattern fs sys [] rc io = ran rc io
files_loop pattern fs sys (name ∷ names) rc io =
    after_file (one_file pattern fs sys name io)
      (λ rc' io'. files_loop pattern fs sys names rc' io')

-- One run of a pattern over all the input.
inputs : Option Bytes → Flags → Files → List Bytes → Io → Ran
unfolding files_loop after_grep grep
inputs pattern fs sys [] io = after_grep (grep pattern fs io.stdin io.out)
inputs pattern fs sys (name ∷ names) io = files_loop pattern fs sys (name ∷ names) exit_failure io

status : Bool → ℕ
status any = if any then exit_success else exit_failure

-- What follows the run of one pattern, up to the next pattern.
after_inputs : Bool → Flags → Ran → (Bool → Io → Outcome ℕ × Output) → Outcome ℕ × Output
after_inputs any fs (ended r o) again = (r, o)
after_inputs any fs (ran rc io) again = elim (rc == exit_problem && not fs.quiet) [
  | true ↦ (returns exit_problem, io.out)
  | false ↦ again (any || rc == exit_success) io
]

-- The loop over the patterns that are left in the file. A blank line and a line that starts with `#`
-- reach the `continue`, which goes to the test of the loop, so that they are searched for as well.
unfoldable pub patterns_loop :
    Flags → Files → List Bytes → List Line → Bool → Io → Outcome ℕ × Output
unfolding after_inputs inputs status
patterns_loop fs sys names [] any io = (returns (status any), io.out)
patterns_loop fs sys names (wrong ∷ ls) any io = (returns exit_problem, io.out)
patterns_loop fs sys names (last re ∷ ls) any io = (returns (status any), io.out)
patterns_loop fs sys names (line re ∷ ls) any io =
    after_inputs any fs (inputs (some re) fs sys names io)
      (λ any' io'. patterns_loop fs sys names ls any' io')

-- The first pattern of the file is taken whether or not its line is ended.
first_pattern : Flags → Files → List Bytes → List Line → Io → Outcome ℕ × Output
unfolding after_inputs inputs patterns_loop
first_pattern fs sys names [] io = (returns exit_problem, io.out)
first_pattern fs sys names (wrong ∷ ls) io = (returns exit_problem, io.out)
first_pattern fs sys names (last re ∷ ls) io =
    after_inputs false fs (inputs (some re) fs sys names io)
      (λ any io'. patterns_loop fs sys names (last [] ∷ []) any io')
first_pattern fs sys names (line re ∷ ls) io =
    after_inputs false fs (inputs (some re) fs sys names io)
      (λ any io'. patterns_loop fs sys names ls any io')

with_file : Flags → Files → Bytes → List Bytes → Io → Outcome ℕ × Output
unfolding first_pattern readlines
with_file fs sys name names io = elim (sys.open_patterns name) [
  | none ↦ (returns exit_problem, io.out)
  | some es ↦ first_pattern fs sys names (readlines es []) io
]

-- pattern = argv[i++], which is a null pointer at the end of the arguments.
with_argument : Flags → Files → List Bytes → Io → Outcome ℕ × Output
unfolding after_inputs inputs status
with_argument fs sys [] io =
    after_inputs false fs (inputs none fs sys [] io) (λ any io'. (returns (status any), io'.out))
with_argument fs sys (re ∷ names) io =
    after_inputs false fs (inputs (some re) fs sys names io)
      (λ any io'. (returns (status any), io'.out))

run : Files → Option (Options × List Bytes) → Io → Outcome ℕ × Output
unfolding with_file with_argument
run sys none io = (returns exit_problem, io.out)
run sys (some (o, args)) io = elim o.next_arg [
  | file_arg ↦ (returns exit_problem, io.out)
  | nothing ↦ elim o.pattern_file [
    | none ↦ with_argument o.flags sys args io
    | some name ↦ with_file o.flags sys name args io
  ]
]

-- `main`, on the arguments behind the program's name.
unfoldable pub main : Files → List Bytes → Io → Outcome ℕ × Output
unfolding run parse_args
main sys [] io = (returns exit_problem, io.out)
main sys (arg ∷ args) io = run sys (parse_args (arg ∷ args) defaults) io
