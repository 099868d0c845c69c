-- ===== src/Timeconst/Ratio.antt =====
-- The quotients that `timeconst` of programs/bc4linux.c prints.
use native.Mathlib.Nat.{div-eq_of_eq-mul_left, mul_assoc}
use punchcardos.Prelude.{ℕ, zero, suc, ◌*◌, ◌/◌, ◌<◌, ◌≡◌, refl, sym, ◌∙◌, ap, arith}
use punchcardos.Timeconst.Adjust.{gcd_pos}
use punchcardos.Timeconst.Gcd.{gcd, gcd-IsGcd}

one_of_mul_self : (k h g : ℕ) → 0 < g → k * (h * g) ≡ g → h ≡ 1
one_of_mul_self zero h g p e = absurd (omega arith)
one_of_mul_self (suc k) zero g p e = absurd (omega arith)
one_of_mul_self (suc k) (suc zero) g p e = refl
one_of_mul_self (suc k) (suc (suc h)) g p e = absurd (omega arith)

-- The two printed numbers have the ratio of `unit` to `hz` and no common divisor but 1.
pub ratio-lowest :
    (hz unit : ℕ)
    → 0 < unit
    → (unit / gcd hz unit * hz ≡ unit * (hz / gcd hz unit))
      × (gcd (hz / gcd hz unit) (unit / gcd hz unit) ≡ 1)
ratio-lowest hz unit p =
    let ((k, e), (l, f), greatest) = gcd-IsGcd hz unit in
    let g = gcd hz unit in
    let pos = gcd_pos hz unit p in
    let num : hz / gcd hz unit ≡ k = div-eq_of_eq-mul_left pos (sym e) in
    let den : unit / gcd hz unit ≡ l = div-eq_of_eq-mul_left pos (sym f) in
    let ((i, a), (j, b), _) = gcd-IsGcd k l in
    let common =
      greatest (gcd k l * g) (i, sym (mul_assoc i (gcd k l) g) ∙ ap (λ (t : ℕ). t * g) a ∙ e)
        (j, sym (mul_assoc j (gcd k l) g) ∙ ap (λ (t : ℕ). t * g) b ∙ f) in
    (
      rw (num, den) (omega (arith, ap (λ (t : ℕ). l * t) e, ap (λ (t : ℕ). t * k) f)),
      rw (num, den) (one_of_mul_self common.0 (gcd k l) g pos common.1),
    )
