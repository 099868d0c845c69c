-- ===== src/Timeconst/Emit.antt =====
-- `timeconst` and `main` of programs/bc4linux.c: the file is written piece by piece.
pub mod Text
pub mod Whole
use punchcardos.Prelude.{
  ℕ, zero, suc, Bool, true, false, Bytes, [], ◌∷◌, ◌++◌, Option, none, some, codes, ltb,
  if◌then◌else◌, take, until_nul,
}
use punchcardos.Sys.{
  ReadEvent, got, failed, Output, Written, count, eintr, error, write, Outcome, returns, exits,
  undefined, out_of_fuel, exit_success, exit_failure,
}
use punchcardos.Timeconst.Decimal.{itoa, atoi}
use punchcardos.Timeconst.Fixed.{divide, fmul, fmuls, fadj}
use punchcardos.Timeconst.Gcd.{gcd}

-- A step of the program: it writes to the standard output.
abbrev pub Run : Type 0 → Type 0
Run A = Output → Outcome A × Output

abbrev then_run : {A B : Type 0} → Outcome A → Output → (A → Run B) → Outcome B × Output
then_run (returns a) o f = f a o
then_run (exits n) o f = (exits n, o)
then_run undefined o f = (undefined, o)
then_run out_of_fuel o f = (out_of_fuel, o)

infixl 5 ◌>>=◌ ◌>>◌
unfoldable pub ◌>>=◌ : {A B : Type 0} → Run A → (A → Run B) → Run B
◌>>=◌ m f o = then_run (m o).0 (m o).1 f

unfoldable pub ◌>>◌ : {B : Type 0} → Run (Unit {0}) → Run B → Run B
unfolding ◌>>=◌
m >> k = m >>= λ _. k

abbrev pub finish : ℕ → Run ℕ
finish n o = (returns n, o)

-- A value that the code computes; `none` is undefined behaviour or a trap.
unfoldable pub compute : Option ℕ → Run ℕ
compute none o = (undefined, o)
compute (some v) o = (returns v, o)

-- if (write(STDOUT_FILENO, x, strlen(x)) <= 0) return EXIT_FAILURE;
checked : Written → Outcome (Unit {0})
checked (count zero) = exits exit_failure
checked (count (suc n)) = returns tt
checked eintr = exits exit_failure
checked error = exits exit_failure

unfoldable pub put : Bytes → Run (Unit {0})
unfolding checked
put x o = (checked (write x o).0, (write x o).1)

-- WRITE(name) tmp = itoa(value); WRITE(tmp) WRITE(tail)
unfoldable pub define : Bytes → Option ℕ → Bytes → Run (Unit {0})
define name value tail = do put name; v ← compute value; put (itoa v); put tail

abbrev pub header : Bytes
header =
    codes
      "/* Automatically generated by kernel/time/timeconst.bc */\n#ifndef KERNEL_TIMECONST_H\n#define KERNEL_TIMECONST_H\n\n#include <linux/param.h>\n#include <linux/types.h>\n\n"

abbrev pub footer : Bytes
footer = codes "\n#endif /* KERNEL_TIMECONST_H */\n"

-- The strings DEFINE_01 to DEFINE_24 are `#define`, the name of a unit and one of these endings.
abbrev pub macro : Bytes → Bytes → Bytes
macro name ending = codes "#define " ++ (name ++ ending)

-- The three lines of one conversion: factor, adjustment and shift.
unfoldable pub factor : Bytes → ℕ → ℕ → ℕ → Run (Unit {0})
factor name s n d = do
  define (macro name (codes "_MUL32\tU64_C(")) (fmul s n d) (codes ")\n")
  define (macro name (codes "_ADJ32\tU64_C(")) (fadj s n d) (codes ")\n")
  define (macro name (codes "_SHR32\t")) (some s) (codes "\n")

-- The four lines of one pair of units, in lowest terms; `last` ends the fourth.
unfoldable pub ratio : Bytes → Bytes → ℕ → ℕ → ℕ → Bytes → Run (Unit {0})
ratio forth back unit hz cd last = do
  define (macro forth (codes "_NUM\t\t")) (divide unit cd) (codes "\n")
  define (macro forth (codes "_DEN\t\t")) (divide hz cd) (codes "\n")
  define (macro back (codes "_NUM\t\t")) (divide hz cd) (codes "\n")
  define (macro back (codes "_DEN\t\t")) (divide unit cd) last

unfoldable pub timeconst : ℕ → Run ℕ
timeconst hz = do
  s ← compute (fmuls 32 1_000 hz)
  put header
  factor (codes "HZ_TO_MSEC") s 1_000 hz
  t ← compute (fmuls 32 hz 1_000)
  factor (codes "MSEC_TO_HZ") t hz 1_000
  ratio (codes "HZ_TO_MSEC") (codes "MSEC_TO_HZ") 1_000 hz (gcd hz 1_000) (codes "\n\n")
  u ← compute (fmuls 32 1_000_000 hz)
  factor (codes "HZ_TO_USEC") u 1_000_000 hz
  v ← compute (fmuls 32 hz 1_000_000)
  factor (codes "USEC_TO_HZ") v hz 1_000_000
  ratio (codes "HZ_TO_USEC") (codes "USEC_TO_HZ") 1_000_000 hz (gcd hz 1_000_000) (codes "\n")
  ratio (codes "HZ_TO_NSEC") (codes "NSEC_TO_HZ") 1_000_000_000 hz (gcd hz 1_000_000_000)
      (codes "\n")
  put footer
  finish exit_success

-- `hz` as `main` reads it: at most 99 bytes of one `read`, as a string.
unfoldable pub start : Option ℕ → Run ℕ
start none = λ o. (undefined, o)
start (some hz) = if ltb hz 2 then finish exit_failure else timeconst hz

-- The function `read` of the file has no return statement: `returned` tells whether its caller finds the
-- count that the system call has left in the register. If not, `read_len` is undefined.
unfoldable pub main : Bool → ReadEvent → Run ℕ
main false e = λ o. (undefined, o)
main true failed = finish exit_failure
main true (got []) = finish exit_failure
main true (got (c ∷ bs)) = start (atoi (until_nul (take 99 (c ∷ bs))))
