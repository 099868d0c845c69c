-- ===== src/Hexdump/Args.antt =====
-- The main function of programs/hexdump.c. Its `atoi` is that of programs/bc4linux.c.
use punchcardos.Hexdump.{Input, hexdump}
use punchcardos.Prelude.{
  ℕ, ◌-◌, ◌^◌, ◌≤◌, ◌≡◌, refl, Bool, true, false, ◌&&◌, List, [], ◌∷◌, Bytes, Option, none, some,
  length, ◌==◌, deref, append-nil, codes,
}
use punchcardos.Sys.{Output, Outcome, returns, undefined}
use punchcardos.Timeconst.Decimal.Scan.{atoi-itoa}
use punchcardos.Timeconst.Decimal.{atoi, itoa, int_max}

-- What can be opened, for reading and for writing.
pub record Files : Type 0 where
  pub input : Bytes → Option Input
  pub output : Bytes → Option Output

-- The variables of main.
pub record Settings : Type 0 where
  pub infd : Input
  pub outfd : Output
  pub start : ℕ
  pub numbytes : ℕ

-- How the program ends: with the status and the output that hexdump leaves, or before that, for a
-- file that cannot be opened or an option that there is not.
pub data Ended : Type 0 where
  ran : ℕ × Output → Ended
  not_opened : Ended
  not_understood : ℕ → Ended

abbrev second : Bytes → ℕ
second [] = 0
second (c ∷ s) = deref s

-- argv[i][0] == '-' and a length of 2
abbrev is_option : Bytes → Bool
is_option arg = (deref arg == b'-') && (length arg == 2)

with_number : Option ℕ → (ℕ → Outcome Ended) → Outcome Ended
with_number none again = undefined
with_number (some n) again = again n

with_output : Option Output → (Output → Outcome Ended) → Outcome Ended
with_output none again = returns not_opened
with_output (some o) again = again o

with_input : Option Input → (Input → Outcome Ended) → Outcome Ended
with_input none again = returns not_opened
with_input (some i) again = again i

-- switch (argv[i][1]), with the argument behind the option.
with_option : Files → ℕ → Bytes → Settings → (Settings → Outcome Ended) → Outcome Ended
unfolding with_number with_output
with_option fs letter val st again = elim (letter == b's') [
  | true ↦ with_number (atoi val) (λ n. again (record st { start = n }))
  | false ↦ elim (letter == b'n') [
    | true ↦ with_number (atoi val) (λ n. again (record st { numbytes = n }))
    | false ↦ elim (letter == b'o') [
      | true ↦ with_output (fs.output val) (λ o. again (record st { outfd = o }))
      | false ↦ returns (not_understood letter)
    ]
  ]
]

-- An option needs an argument behind it: the last argument is always the name of a file.
unfoldable pub args_loop : Files → List Bytes → Settings → Outcome Ended
unfolding with_option with_input
args_loop fs [] st = returns (ran (hexdump st.infd st.outfd st.start st.numbytes))
args_loop fs (arg ∷ []) st =
    with_input (fs.input arg) (λ i. returns (ran (hexdump i st.outfd st.start st.numbytes)))
args_loop fs (arg ∷ val ∷ args) st = elim (is_option arg) [
  | true ↦ with_option fs (second arg) val st (λ st'. args_loop fs args st')
  | false ↦ with_input (fs.input arg) (λ i. args_loop fs (val ∷ args) (record st { infd = i }))
]

-- SIZE_MAX
abbrev pub size_max : ℕ
size_max = 2 ^ 64 - 1

-- The main function, with the standard input and output, on the arguments behind the program's name.
unfoldable pub main : Files → Input → Output → List Bytes → Outcome Ended
unfolding args_loop
main fs stdin stdout args =
    args_loop fs args (record { infd = stdin; outfd = stdout; start = 0; numbytes = size_max })

atoi-itoa_all : (n : ℕ) → n ≤ int_max → atoi (itoa n) ≡ some n
atoi-itoa_all n h = rw (append-nil (itoa n)) at (atoi-itoa n [] h refl)

-- The options `-s` and `-n` with decimal numerals, and then the name of a file that can be opened: its bytes
-- from the one offset, as many as the other number says, are shown on the standard output.
pub main-options :
    (fs : Files) (stdin infile : Input) (stdout : Output) (start numbytes : ℕ) (name : Bytes)
    → start ≤ int_max
    → numbytes ≤ int_max
    → fs.input name ≡ some infile
    → main fs stdin stdout (codes "-s" ∷ itoa start ∷ codes "-n" ∷ itoa numbytes ∷ name ∷ [])
      ≡ returns (ran (hexdump infile stdout start numbytes))
unfolding main args_loop with_option with_number with_input
main-options fs stdin infile stdout start numbytes name hs hn e =
    rw (atoi-itoa_all start hs) (rw (atoi-itoa_all numbytes hn) (rw e refl))
