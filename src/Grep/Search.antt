-- ===== src/Grep/Search.antt =====
-- programs/grep.c: `grep`, the search through one file.
pub mod Lines
pub mod Result
use punchcardos.Grep.{match}
use punchcardos.Prelude.{
  ℕ, zero, suc, Bool, true, false, Option, none, some, Bytes, List, [], ◌∷◌, ◌++◌, ◌==◌,
  if◌then◌else◌,
}
use punchcardos.Sys.{
  ReadEvent, got, failed, Output, Written, count, eintr, error, write, Outcome, returns, exits,
  undefined, out_of_fuel, exit_success, exit_failure,
}

-- FLAG_INVERT and so on.
pub record Flags : Type 0 where
  pub invert : Bool
  pub quiet : Bool
  pub fixed : Bool
  pub caseign : Bool

abbrev pub exit_problem : ℕ
exit_problem = 2

-- Where `strchr(p, '\n')` finds a newline: the line before it, and the memory behind it. It finds
-- none behind a NUL.
unfoldable pub find_line : Bytes → Option (Bytes × Bytes)
find_line [] = none
find_line (b ∷ bs) = elim (b == 0) [
  | true ↦ none
  | false ↦ elim (b == b'\n') [
    | true ↦ some ([], bs)
    | false ↦ elim (find_line bs) [ none ↦ none | some (line, rest) ↦ some (b ∷ line, rest) ]
  ]
]

-- The newline in the place of the NUL is written as well; a write that is cut short passes for a
-- full one.
abbrev failed_write : Written → Bool
failed_write (count n) = false
failed_write eintr = true
failed_write error = true

-- One line found: the new `any_line_matched`, or the end of the function.
pub data Shown : Type 0 where
  go_on : Bool → Output → Shown
  problem : Output → Shown
  stop : Outcome ℕ → Output → Shown

show : Flags → Bytes → Output → Shown
show fs line o = elim fs.quiet [
  | true ↦ go_on true o
  | false ↦ elim (failed_write (write (line ++ b'\n' ∷ []) o).0) [
    | true ↦ problem (write (line ++ b'\n' ∷ []) o).1
    | false ↦ go_on true (write (line ++ b'\n' ∷ []) o).1
  ]
]

-- match(pattern, p, flags) == criterion
pub judge : Flags → Bytes → Bool → Output → Outcome Bool → Shown
unfolding show
judge fs line any o (returns true) = elim fs.invert [ true ↦ go_on any o | false ↦ show fs line o ]
judge fs line any o (returns false) = elim fs.invert [ true ↦ show fs line o | false ↦ go_on any o ]
judge fs line any o (exits n) = stop (exits n) o
judge fs line any o undefined = stop undefined o
judge fs line any o out_of_fuel = stop out_of_fuel o

-- The pattern is a null pointer if there was no argument for it.
line_found : Option Bytes → Flags → Bytes → Bytes → Bool → Output → Shown
unfolding judge match
line_found none fs line rest any o = stop undefined o
line_found (some re) fs line rest any o =
    judge fs line any o (match fs.fixed fs.caseign re (line ++ 0 ∷ rest))

-- while ((q = strchr(p, '\n')) != 0): how it ends, with where `p` stands then, and whether a line
-- has been found at all.
pub data Scan : Type 0 where
  scanned : Bool → Bytes → Bool → Output → Scan
  returned : Outcome ℕ → Output → Scan

after_shown : Shown → (Bool → Output → Scan) → Scan
after_shown (go_on any o) again = again any o
after_shown (problem o) again = returned (returns exit_problem) o
after_shown (stop r o) again = returned r o

-- The memory is what the buffer holds, to the NUL that `buf[m] = '\0'` puts behind it. `moved` says
-- whether `p` has left the start. The first argument bounds the rounds: the memory's length.
unfoldable pub lines_loop : ℕ → Option Bytes → Flags → Bytes → Bool → Bool → Output → Scan
unfolding find_line after_shown line_found
lines_loop zero pattern fs p moved any o = returned out_of_fuel o
lines_loop (suc fuel) pattern fs p moved any o = elim (find_line p) [
  | none ↦ scanned moved p any o
  | some (line, rest) ↦
      after_shown (line_found pattern fs line rest any o)
        (λ any' o'. lines_loop fuel pattern fs rest true any' o')
]

-- `buf[m] = '\0'`, and the bytes that stay in the buffer without it.
unfoldable pub terminated : Bytes → Bytes
terminated bs = bs ++ 0 ∷ []

unfoldable pub without_end : Bytes → Bytes
without_end [] = []
without_end (b ∷ []) = []
without_end (b ∷ (c ∷ bs)) = b ∷ without_end (c ∷ bs)

-- What `m` and the memmove keep of the buffer: nothing if no newline was found.
unfoldable pub kept : Bool → Bytes → Bytes
unfolding without_end
kept true p = without_end p
kept false p = []

unfoldable pub rounds : Bytes → ℕ
rounds [] = 1
rounds (b ∷ bs) = suc (rounds bs)

-- The input that is left, with the result.
pub record Searched : Type 0 where
  pub result : Outcome ℕ
  pub stdin : List ReadEvent
  pub out : Output

after_scan : Scan → List ReadEvent → (Bytes → Bool → Output → Searched) → Searched
unfolding kept
after_scan (scanned moved p any o) es again = again (kept moved p) any o
after_scan (returned r o) es again = record { result = r; stdin = es; out = o }

abbrev pub status : Bool → ℕ
status any = if any then exit_success else exit_failure

-- while ((n = read(fd, buf + m, sizeof(buf) - m - 1)) > 0), with the bytes buf[0] … buf[m - 1]. A
-- script of reads is one that this read can give: no more bytes at a time than it asks for.
unfoldable pub grep_loop : Option Bytes → Flags → Bytes → Bool → List ReadEvent → Output → Searched
unfolding after_scan lines_loop terminated rounds
grep_loop pattern fs buf any [] o = record { result = returns (status any); stdin = []; out = o }
grep_loop pattern fs buf any (failed ∷ es) o = record {
  result = returns exit_problem;
  stdin = es;
  out = o;
}
grep_loop pattern fs buf any (got [] ∷ es) o = record {
  result = returns (status any);
  stdin = es;
  out = o;
}
grep_loop pattern fs buf any (got (b ∷ bs) ∷ es) o =
    let p = terminated (buf ++ b ∷ bs) in
    after_scan (lines_loop (rounds p) pattern fs p false any o) es
      (λ buf' any' o'. grep_loop pattern fs buf' any' es o')

unfoldable pub grep : Option Bytes → Flags → List ReadEvent → Output → Searched
unfolding grep_loop
grep pattern fs es o = grep_loop pattern fs [] false es o
