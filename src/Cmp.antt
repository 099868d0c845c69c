-- ===== src/Cmp.antt =====
-- programs/cmp.c: compares two files byte by byte.
mod Samples
pub mod Compare
pub mod Result
pub mod Ends
pub mod Args
use punchcardos.Prelude.{
  ℕ, zero, suc, ◌+◌, ◌-◌, Bool, true, false, not, ◌&&◌, Option, none, some, Bytes, List, [], ◌∷◌,
  ◌++◌, ltb, ◌==◌, if◌then◌else◌, length, codes, str_eq,
}
use punchcardos.Sys.{
  ByteEvent, byte, failed, Output, Written, count, eintr, error, write, Outcome, returns, undefined,
}
use punchcardos.Timeconst.Decimal.{itoa}

-- `EXIT_SAME`, `EXIT_DIFFERENT` and `EXIT_TROUBLE`
abbrev pub exit_same : ℕ
exit_same = 0

abbrev pub exit_different : ℕ
exit_different = 1

abbrev pub exit_trouble : ℕ
exit_trouble = 2

-- The bits of `flags`.
pub record Flags : Type 0 where
  pub print_bytes : Bool
  pub verbose : Bool
  pub silent : Bool

-- What is left to read of each open file. Two descriptors that are one share it.
abbrev pub Store : Type 0
Store = ℕ → List ByteEvent

pub data ReadByte : Type 0 where
  end_of_file : ReadByte
  char : ℕ → ReadByte
  read_error : ReadByte

abbrev pub store_set : ℕ → List ByteEvent → Store → Store
store_set fd es s = λ k. if k == fd then es else s k

abbrev pub read_event : ℕ → List ByteEvent → Store → ReadByte × Store
read_event fd [] s = (end_of_file, s)
read_event fd (byte b ∷ es) s = (char b, store_set fd es s)
read_event fd (failed ∷ es) s = (read_error, store_set fd es s)

-- read(fd, &c, 1)
abbrev pub read_byte : ℕ → Store → ReadByte × Store
read_byte fd s = read_event fd (s fd) s

-- The variables that the report of a difference shows.
pub record Report : Type 0 where
  pub c1 : ℕ
  pub c2 : ℕ
  pub line : ℕ
  pub byte : ℕ

pub data Verdict : Type 0 where
  same : Verdict
  trouble : Verdict
  differ : Report → Verdict
  out_of_rounds : Verdict

-- Behind the loop, when the first file has ended: one more byte of the second makes a difference.
at_end : ReadByte → Report → Verdict
at_end (char b) r = differ (record r { c2 = b })
at_end end_of_file r = same
at_end read_error r = same

-- The rest of a round, with the byte of the first file in `c1` and counted.
second_byte : ReadByte → Report → (Report → Verdict) → Verdict
second_byte read_error r again = trouble
second_byte end_of_file r again = differ r
second_byte (char b) r again =
    let r' = record r { c2 = b } in
    let more = again (if r.c1 == b'\n' then record r' { line = r.line + 1 } else r') in
    if not (r.c1 == b) then differ r' else more

-- while ((rc = read(fd1, &c1, 1)) == 1) and what follows it.
unfoldable pub cmp_loop : ℕ → ℕ → ℕ → Store → Report → Verdict
unfolding second_byte at_end
cmp_loop zero fd1 fd2 s r = out_of_rounds
cmp_loop (suc f) fd1 fd2 s r = elim (read_byte fd1 s).0 [
  | end_of_file ↦ at_end (read_byte fd2 (read_byte fd1 s).1).0 r
  | read_error ↦ trouble
  | char a ↦
      second_byte (read_byte fd2 (read_byte fd1 s).1).0
        (record { c1 = a; c2 = r.c2; line = r.line; byte = r.byte + 1 })
        (cmp_loop f fd1 fd2 (read_byte fd2 (read_byte fd1 s).1).1)
]

-- %d of a `char`, which is signed.
abbrev show_char : ℕ → Bytes
show_char c = if ltb c 128 then itoa c else b'-' ∷ itoa (256 - c)

abbrev shown_name : Bytes → Bytes
shown_name name = if str_eq name (codes "-") then codes "<stdin>" else name

-- The line that reports a difference.
unfoldable pub message : Bytes → Bytes → Flags → Report → Bytes
unfolding str_eq
message file1 file2 flags r =
    let place =
      shown_name file1
      ++ (b' '
          ∷ (shown_name file2
              ++ (codes " differ: byte " ++ (itoa r.byte ++ (codes ", line " ++ itoa r.line))))) in
    if flags.print_bytes && (not (r.c1 == 0) && not (r.c2 == 0))
    then place
      ++ (codes " is "
          ++ (show_char r.c1
              ++ (b' ' ∷ r.c1 ∷ b' ' ∷ (show_char r.c2 ++ (b' ' ∷ r.c2 ∷ b'\n' ∷ [])))))
    else place ++ b'\n' ∷ []

-- printf(…) < 10
too_short : Written → Bool
too_short (count n) = ltb n 10
too_short eintr = true
too_short error = true

conclude : Verdict → Bytes → Bytes → Flags → Output → Outcome ℕ × Output
unfolding message too_short
conclude same file1 file2 flags o = (returns exit_same, o)
conclude trouble file1 file2 flags o = (returns exit_trouble, o)
conclude out_of_rounds file1 file2 flags o = (Outcome.out_of_fuel, o)
conclude (differ r) file1 file2 flags o =
    if flags.silent
    then (returns exit_different, o)
    else if too_short (write (message file1 file2 flags r) o).0
    then (returns exit_trouble, (write (message file1 file2 flags r) o).1)
    else (returns exit_different, (write (message file1 file2 flags r) o).1)

-- The files of the system: what reading gives, and the size that `stat` gives.
pub record Files : Type 0 where
  pub stdin : List ByteEvent
  pub open_file : Bytes → Option (List ByteEvent)
  pub size_of : Bytes → Option ℕ

-- Descriptor 0 is the standard input; the files that are opened have the descriptors 3 and 4.
abbrev pub stdin_only : Files → Store
stdin_only fs = λ k. if k == 0 then fs.stdin else []

compare_sizes : Option ℕ → Option ℕ → Report → Verdict → Verdict
compare_sizes none m r onward = trouble
compare_sizes (some n) none r onward = trouble
compare_sizes (some n) (some m) r onward = if not (n == m) then differ r else onward

-- The verdict on two different files, by their sizes if these differ.
two_files :
    Files → Bytes → Bytes → Report → Option (List ByteEvent) → Option (List ByteEvent) → Verdict
unfolding compare_sizes cmp_loop
two_files fs file1 file2 r none es2 = trouble
two_files fs file1 file2 r (some es1) none = trouble
two_files fs file1 file2 r (some es1) (some es2) =
    compare_sizes (fs.size_of file1) (fs.size_of file2) r
      (cmp_loop (suc (length es1)) 3 4 (store_set 4 es2 (store_set 3 es1 (stdin_only fs))) r)

-- Both descriptors are chosen by the second name: for `-` both are the standard input.
unfoldable pub verdict : Files → Bytes → Bytes → Report → Verdict
unfolding two_files str_eq
verdict fs file1 file2 r =
    if str_eq file2 (codes "-")
    then cmp_loop (suc (length fs.stdin)) 0 0 (stdin_only fs) r
    else two_files fs file1 file2 r (fs.open_file file1) (fs.open_file file2)

-- The variables `c1` and `c2` are not initialised: they hold `g1` and `g2`.
abbrev pub initial : ℕ → ℕ → Report
initial g1 g2 = record { c1 = g1; c2 = g2; line = 1; byte = 1 }

-- A missing second name is a null pointer, which `strcmp` reads through.
unfoldable pub cmp :
    ℕ → ℕ → Files → Option Bytes → Option Bytes → Flags → Output → Outcome ℕ × Output
unfolding conclude verdict
cmp g1 g2 fs (some file1) (some file2) flags o =
    conclude (verdict fs file1 file2 (initial g1 g2)) file1 file2 flags o
cmp g1 g2 fs _ _ flags o = (undefined, o)
