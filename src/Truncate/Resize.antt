-- ===== src/Truncate/Resize.antt =====
-- programs/truncate.c: the sizes to which the operands / and % round.
use native.Mathlib.Nat.{
  div-mul-le_self, mod-eq-sub-div-mul, lt-div-mul-add, mod-lt, add-mul, mul-mod_left,
}
use punchcardos.Prelude.{
  ℕ, suc, ◌+◌, ◌-◌, ◌*◌, ◌/◌, ◌%◌, ◌<◌, ◌≤◌, ◌≡◌, ◌≢◌, refl, ◌∙◌, ap, true, ==_ne, leb, le→leb,
  arith,
}
use punchcardos.Numbers.{long_max}
use punchcardos.Truncate.{to, round_down, round_up, new_size}

-- The multiple of `modulus` that rounding gives.
pub record RoundsTo (op modulus current lower upper : ℕ) : Type 0 where
  pub times : ℕ
  pub rounded : new_size op modulus current ≡ to (times * modulus)
  pub at_least : lower ≤ times * modulus
  pub at_most : times * modulus ≤ upper

-- `/` rounds a size that is no multiple down, to a multiple less than one modulus below.
pub new_size-round_down :
    (modulus current : ℕ)
    → modulus ≢ 0
    → current % modulus ≢ 0
    → RoundsTo b'/' modulus current (suc current - modulus) current
unfolding new_size round_down
new_size-round_down modulus current m n = record {
  times = current / modulus;
  rounded =
      rw (==_ne modulus 0 m, ==_ne (current % modulus) 0 n)
        (ap to
          (omega (arith, mod-eq-sub-div-mul current modulus, div-mul-le_self current modulus)));
  at_least =
      let pos : 0 < modulus = ground arith in omega (arith, lt-div-mul-add {a = current} pos);
  at_most = div-mul-le_self current modulus;
}

-- `%` rounds a size that is no multiple up, to a multiple less than one modulus above, unless the
-- result leaves the range of a `long`.
pub new_size-round_up :
    (modulus current : ℕ)
    → modulus ≢ 0
    → current % modulus ≢ 0
    → current + modulus ≤ long_max
    → RoundsTo b'%' modulus current current (current + modulus - 1)
unfolding new_size round_up
new_size-round_up modulus current m n f =
    let pos : 0 < modulus = ground arith in
    let up : (current / modulus + 1) * modulus ≡ current / modulus * modulus + modulus =
      add-mul (current / modulus) 1 modulus ∙ omega arith in
    let rest : current % modulus < modulus = mod-lt current pos in
    let more : 0 < current % modulus = ground arith in
    let rem = mod-eq-sub-div-mul current modulus in
    let below = div-mul-le_self current modulus in
    let fit : leb (current + (modulus - current % modulus)) long_max ≡ true =
      le→leb (current + (modulus - current % modulus)) long_max (omega arith) in
    record {
      times = current / modulus + 1;
      rounded =
          rw (==_ne modulus 0 m, ==_ne (current % modulus) 0 n, fit)
            (ap to (omega (arith, up, rem, below, rest)));
      at_least = omega (arith, up, rem, below, rest);
      at_most = omega (arith, up, rem, below, rest, more);
    }

-- A size that is a multiple already becomes the modulus itself, with `/` and with `%`.
pub new_size-multiple :
    (modulus k : ℕ)
    → modulus ≢ 0
    → (new_size b'/' modulus (k * modulus) ≡ to modulus)
      × (new_size b'%' modulus (k * modulus) ≡ to modulus)
unfolding new_size round_down round_up
new_size-multiple modulus k m =
    let zero_rest : (k * modulus) % modulus ≡ 0 = mul-mod_left k modulus in
    (rw (==_ne modulus 0 m, zero_rest) refl, rw (==_ne modulus 0 m, zero_rest) refl)
