-- ===== src/Timeconst/Gcd.antt =====
-- `gcd` of programs/bc4linux.c: Euclid's loop, by recursion on the remainder.
use mathlib.Core.WellFounded.{Acc}
use native.Mathlib.Nat.{div-add-mod', mul-sub, mul_comm}
use punchcardos.Prelude.Order.{lt_wf}
use punchcardos.Prelude.{ℕ, zero, suc, ◌+◌, ◌-◌, ◌*◌, ◌/◌, ◌%◌, ◌<◌, ◌≡◌, ap, arith}

-- while (b) { t = b; b = a % b; a = t; }
gcd_loop : (a b : ℕ) → Acc ◌<◌ b → ℕ
gcd_loop a zero w = a
gcd_loop a (suc m) (Acc.intro _ below) =
    let rest : a % suc m < suc m = omega arith in gcd_loop (suc m) (a % suc m) (below _ rest)

unfoldable pub gcd : ℕ → ℕ → ℕ
unfolding gcd_loop lt_wf
gcd x y = gcd_loop x y (lt_wf.apply y)

-- `c` divides `a`, with the cofactor.
abbrev pub Divides : ℕ → ℕ → Type 0
Divides c a = (k : ℕ) × (k * c ≡ a)

abbrev pub IsGcd : ℕ → ℕ → ℕ → Type 0
IsGcd a b g = Divides g a × Divides g b × ((c : ℕ) → Divides c a → Divides c b → Divides c g)

IsGcd-step : (a b g : ℕ) → 0 < b → IsGcd b (a % b) g → IsGcd a b g
IsGcd-step a b g h ((k, e), (l, f), greatest) = (
  (a / b * k + l, whole),
  (k, e),
  λ c (i, p) (j, q). greatest c (j, q) (i - a / b * j, remainder c i j p q),
)
  where
    whole : (a / b * k + l) * g ≡ a
    whole = omega (arith, div-add-mod' a b, ap (λ (t : ℕ). a / b * t) e)

    remainder : (c i j : ℕ) → i * c ≡ a → j * c ≡ b → (i - a / b * j) * c ≡ a % b
    remainder c i j p q =
        rw (mul_comm (i - a / b * j) c, mul-sub)
          (omega (arith, div-add-mod' a b, ap (λ (t : ℕ). a / b * t) q))

gcd_loop-IsGcd : (a b : ℕ) (w : Acc ◌<◌ b) → IsGcd a b (gcd_loop a b w)
unfolding gcd_loop
gcd_loop-IsGcd a zero w = ((1, omega arith), (0, omega arith), λ c d _. d)
gcd_loop-IsGcd a (suc m) (Acc.intro _ below) =
    IsGcd-step a (suc m) _ (omega arith) (gcd_loop-IsGcd (suc m) (a % suc m) (below _ _))

-- The loop returns the greatest common divisor: it divides both numbers, and every common divisor
-- divides it.
pub gcd-IsGcd : (a b : ℕ) → IsGcd a b (gcd a b)
unfolding gcd
gcd-IsGcd a b = gcd_loop-IsGcd a b (lt_wf.apply b)
