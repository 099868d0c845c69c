-- ===== src/Head/Args/Options.antt =====
-- What the main function of programs/head.c does with its options.
use punchcardos.Head.Args.{
  leading_value, signed_value, atoi, Settings, settings, initial, Parsed, with_value, option,
  args_loop, World, print_first, with_file, named, on_parsed, head,
}
use punchcardos.Head.{read_bytes, read_lines, stale, filled}
use punchcardos.Prelude.{
  ℕ, zero, suc, List, none, ◌≤◌, ◌++◌, take_all, if◌then◌else◌, Bool-cases, inl, inr, ◌+◌, ◌-◌, ◌*◌,
  ◌^◌, ◌<◌, ◌≡◌, ◌≢◌, refl, ◌∙◌, ap, false, [], ◌∷◌, Bytes, some, length, ◌==◌, codes, str_eq,
  is_space, ==_ne, lt→ltb, arith,
}
use punchcardos.Sys.{
  ReadEvent, got, failed, open_output, write, returns, exit_success, exit_failure,
}
use punchcardos.Timeconst.Decimal.Print.{value_from, AllDigits, itoa-IsDecimal}
use punchcardos.Timeconst.Decimal.{itoa}

leading_value-AllDigits : (n : ℕ) (s : Bytes) → AllDigits s → leading_value n s ≡ value_from n s
leading_value-AllDigits n [] a = refl
leading_value-AllDigits n (c ∷ s) a = rw a.0 (leading_value-AllDigits (n * 10 + (c - b'0')) s a.1)

atoi-digits :
    (c : ℕ) (s : Bytes)
    → AllDigits (c ∷ s)
    → value_from 0 (c ∷ s) < 2 ^ 31
    → atoi (c ∷ s) ≡ some (value_from 0 (c ∷ s))
unfolding atoi signed_value
atoi-digits c s a h =
    let digit = a.0 in
    let space : is_space c ≡ false = ground arith in
    let minus : (c == b'-') ≡ false = ground arith in
    let plus : (c == b'+') ≡ false = ground arith in
    let all = leading_value-AllDigits 0 (c ∷ s) a in
    let fits = lt→ltb (value_from 0 (c ∷ s)) (2 ^ 31) h in
    rw space (rw (minus, plus) (rw (all, fits) refl))

atoi-itoa_int : (n : ℕ) → n < 2 ^ 31 → atoi (itoa n) ≡ some n
atoi-itoa_int n h =
    of_numeral (itoa n) (itoa-IsDecimal n (omega arith)).value
      (itoa-IsDecimal n (omega arith)).digits (itoa-IsDecimal n (omega arith)).nonempty
  where
    of_numeral : (s : Bytes) → value_from 0 s ≡ n → AllDigits s → 0 < length s → atoi s ≡ some n
    of_numeral [] v a l = absurd (omega arith)
    of_numeral (c ∷ s) v a l = atoi-digits c s a (omega arith) ∙ ap some v

option-name :
    (c : ℕ) (s : Bytes) (st : Settings) (again : Settings → Parsed)
    → c ≢ b'-'
    → st.file_name ≡ none
    → option (c ∷ s) st again ≡ again (record st { file_name = some (c ∷ s) })
unfolding option str_eq
option-name c s st again h none_yet =
    let some_bytes = lt→ltb 0 (suc (length s)) (omega arith) in
    let e = ==_ne c b'-' h in
    rw (e, option) (rw e (rw e (rw e (rw (some_bytes, e, none_yet) refl))))

-- `-n` with a positive number and a name that can be opened: the lines go to the standard output.
pub head-lines :
    (w : World) (n c : ℕ) (name : Bytes) (es : List ReadEvent)
    → n < 2 ^ 31
    → c ≢ b'-'
    → w.open_file (c ∷ name) ≡ some es
    → head w (codes "-n" ∷ itoa n ∷ (c ∷ name) ∷ [])
      ≡ returns (record {
        status = (read_lines es n false w.stdout).0;
        to_stdin = w.to_stdin;
        stdout = (read_lines es n false w.stdout).1;
      })
unfolding head on_parsed with_file named print_first args_loop option with_value str_eq
head-lines w n c name es hn hc e =
    let st : Settings = record initial { lines = n } in
    let named_last = option-name c name st (λ st'. settings st') hc refl in
    rw (atoi-itoa_int n hn, with_value) (rw named_last (rw e refl))

length-stale : (memory : ℕ → ℕ) (i n : ℕ) → length (stale memory i n) ≡ n
unfolding stale
length-stale memory i zero = refl
length-stale memory i (suc n) = ap suc (length-stale memory (i + 1) n)

-- The bytes are those that memory holds from an index on.
abbrev pub FromMemory : (ℕ → ℕ) → ℕ → Bytes → Type 0
FromMemory memory i [] = Unit {0}
FromMemory memory i (b ∷ rest) = (b ≡ memory i) × FromMemory memory (i + 1) rest

stale-FromMemory : (memory : ℕ → ℕ) (i n : ℕ) → FromMemory memory i (stale memory i n)
unfolding stale
stale-FromMemory memory i zero = tt
stale-FromMemory memory i (suc n) = (refl, stale-FromMemory memory (i + 1) n)

-- What the first read gives.
abbrev pub first_read : List ReadEvent → Bytes
first_read [] = []
first_read (failed ∷ es) = []
first_read (got bytes ∷ es) = bytes

-- The buffer: first what the read gave, and behind that bytes of memory.
filled-parts :
    (n : ℕ) (memory : ℕ → ℕ) (es : List ReadEvent)
    → length (first_read es) ≤ n
    → (rest : Bytes) × (filled n memory es ≡ first_read es ++ rest)
      × (length (first_read es) + length rest ≡ n)
      × FromMemory memory (length (first_read es)) rest
unfolding filled
filled-parts n memory [] h =
    (stale memory 0 n, refl, omega (arith, length-stale memory 0 n), stale-FromMemory memory 0 n)
filled-parts n memory (failed ∷ es) h =
    (stale memory 0 n, refl, omega (arith, length-stale memory 0 n), stale-FromMemory memory 0 n)
filled-parts n memory (got bytes ∷ es) h =
    let rest = stale memory (length bytes) (n - length bytes) in
    (
      rest,
      rw (take_all n bytes h) refl,
      omega (arith, length-stale memory (length bytes) (n - length bytes)),
      stale-FromMemory memory (length bytes) (n - length bytes),
    )

head-read_bytes :
    (w : World) (n c : ℕ) (name : Bytes) (es : List ReadEvent)
    → 0 < n
    → n < 2 ^ 31
    → c ≢ b'-'
    → w.open_file (c ∷ name) ≡ some es
    → head w (codes "-c" ∷ itoa n ∷ (c ∷ name) ∷ [])
      ≡ returns (record {
        status = (read_bytes w.allocated w.memory es n w.to_stdin).0;
        to_stdin = (read_bytes w.allocated w.memory es n w.to_stdin).1;
        stdout = w.stdout;
      })
unfolding head on_parsed with_file named print_first args_loop option with_value str_eq
head-read_bytes w n c name es pos hn hc e =
    let st : Settings = record initial { bytes = n } in
    let named_last = option-name c name st (λ st'. settings st') hc refl in
    rw (atoi-itoa_int n hn, with_value)
      (rw named_last (rw e (rw (lt→ltb 0 n pos, lt→ltb n (2 ^ 31) hn) refl)))

-- `-c` with a positive number `n` and a name that can be opened, where the first read gives no more than `n`
-- bytes, and the standard input takes what is written to it: with memory for the buffer, `n` bytes go to
-- the standard input, those that the read gave and behind them, when it gave fewer, what the memory
-- of the buffer held at these places, and the program succeeds even if the read failed; without memory it fails. The standard
-- output is left as it is.
pub head-bytes :
    (w : World) (n c : ℕ) (name before : Bytes) (es : List ReadEvent)
    → 0 < n
    → n < 2 ^ 31
    → c ≢ b'-'
    → w.open_file (c ∷ name) ≡ some es
    → w.to_stdin ≡ open_output before
    → length (first_read es) ≤ n
    → (rest : Bytes) × (head w (codes "-c" ∷ itoa n ∷ (c ∷ name) ∷ [])
        ≡ returns (
            if w.allocated
            then record {
              status = exit_success;
              to_stdin = open_output (before ++ (first_read es ++ rest));
              stdout = w.stdout;
            }
            else record {
              status = exit_failure;
              to_stdin = open_output before;
              stdout = w.stdout;
            }))
      × (length (first_read es) + length rest ≡ n)
      × FromMemory w.memory (length (first_read es)) rest
unfolding read_bytes write
head-bytes w n c name before es pos hn hc e stdin h =
    let parts = filled-parts n w.memory es h in
    let run = head-read_bytes w n c name es pos hn hc e in
    (
      parts.0,
      elim (Bool-cases w.allocated) [
        | inl given ↦ run ∙ rw (given, stdin, read_bytes) (rw parts.1 refl)
        | inr refused ↦ run ∙ rw (refused, stdin, read_bytes) refl
      ],
      parts.2,
      parts.3,
    )
