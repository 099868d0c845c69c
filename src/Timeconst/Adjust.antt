-- ===== src/Timeconst/Adjust.antt =====
-- The adjustment terms that `fadj` of programs/bc4linux.c computes, and its quotients.
use native.Mathlib.Nat.{div-eq_of_eq-mul_left, div-le_self, mul-sub, mul-le-mul_left, one-le-pow}
use punchcardos.Prelude.{ℕ, zero, suc, ◌-◌, ◌*◌, ◌/◌, ◌^◌, ◌≤◌, ◌<◌, ◌≡◌, sym, some, lt→ltb, arith}
use punchcardos.Timeconst.Bounds.{wrap_small, wrap_pred}
use punchcardos.Timeconst.Fixed.{u64_mod, wrap, shift_one, divide, fadj}
use punchcardos.Timeconst.Gcd.{gcd, gcd-IsGcd, Divides}

-- A divisor of a positive number is positive, and so is the quotient.
Divides-pos : (g d : ℕ) → Divides g d → 0 < d → 0 < g
Divides-pos zero d (k, e) h = absurd (omega arith)
Divides-pos (suc g) d c h = omega arith

div-Divides_pos : (g d : ℕ) → Divides g d → 0 < d → 0 < d / g
div-Divides_pos g d (zero, e) h = absurd (omega arith)
div-Divides_pos g d (suc k, e) h =
    rw (div-eq_of_eq-mul_left (Divides-pos g d (suc k, e) h) (sym e)) (omega arith)

pub divide_pos : (a d : ℕ) → 0 < d → divide a d ≡ some (a / d)
unfolding divide
divide_pos a d h = ground arith

-- What `fadj` computes: floor(2^b * (d' - 1) / d') for d' = d / gcd n d, its product reduced to 64
-- bits.
abbrev pub adjust : ℕ → ℕ → ℕ → ℕ
adjust b n d = wrap (2 ^ b * (d / gcd n d - 1)) / (d / gcd n d)

module _ (n d : ℕ) (p : 0 < d) where
  pub gcd_pos : 0 < gcd n d
  gcd_pos = Divides-pos (gcd n d) d (gcd-IsGcd n d).1 p

  den_pos : 0 < d / gcd n d
  den_pos = div-Divides_pos (gcd n d) d (gcd-IsGcd n d).1 p

  pub fadj-adjust : (b : ℕ) → b < 64 → d < u64_mod → fadj b n d ≡ some (adjust b n d)
  unfolding fadj shift_one
  fadj-adjust b h small =
      let quotient : d / gcd n d < u64_mod = omega (arith, div-le_self d (gcd n d)) in
      rw (divide_pos d (gcd n d) gcd_pos) (
        rw (lt→ltb b 64 h) (rw (wrap_pred (d / gcd n d) den_pos quotient) (divide_pos _ _ den_pos)))

  -- Where 2^b * d fits 64 bits the product does not wrap: `fadj` returns the exact term.
  fadj_exact :
      (b : ℕ)
      → b < 64
      → 2 ^ b * d < u64_mod
      → fadj b n d ≡ some (2 ^ b * (d / gcd n d - 1) / (d / gcd n d))
  fadj_exact b h fits =
      let low : 2 ^ b * (d / gcd n d) ≤ 2 ^ b * d =
        mul-le-mul_left (2 ^ b) (div-le_self d (gcd n d)) in
      let num : 2 ^ b * (d / gcd n d - 1) < u64_mod = rw mul-sub (omega arith) in
      let den : d * 1 ≤ d * 2 ^ b = mul-le-mul_left d (one-le-pow b 2 (omega arith)) in
      rw (← wrap_small _ num) (fadj-adjust b h (omega arith))
