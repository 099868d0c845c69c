-- ===== src/Timeconst/Decimal/Print.antt =====
-- `itoa` of programs/bc4linux.c against decimal numerals.
use native.Mathlib.Nat.{pow-succ', one-le-pow, pow-le-pow_right}
use punchcardos.Prelude.{
  ℕ, zero, suc, ◌+◌, ◌-◌, ◌*◌, ◌^◌, ◌≤◌, ◌<◌, ◌≡◌, ◌≢◌, ◌∙◌, refl, true, false, inl, inr,
  Bool-cases, Bytes, [], ◌∷◌, ◌++◌, leb, ltb, ◌==◌, ◌||◌, length, length-append, deref, is_digit,
  arith,
}
use punchcardos.Timeconst.Bounds.{wrap_small}
use punchcardos.Timeconst.Decimal.{power, subtract, itoa_round, itoa_loop, itoa}
use punchcardos.Timeconst.Fixed.{u64_mod}

-- The number that a string of digits stands for, read on from `acc`.
abbrev pub value_from : ℕ → Bytes → ℕ
value_from acc [] = acc
value_from acc (c ∷ s) = value_from (acc * 10 + (c - b'0')) s

abbrev pub AllDigits : Bytes → Type 0
AllDigits [] = Unit {0}
AllDigits (c ∷ s) = (is_digit c ≡ true) × AllDigits s

value_from-concat :
    (acc : ℕ) (s : Bytes) (c : ℕ)
    → value_from acc (s ++ c ∷ []) ≡ value_from acc s * 10 + (c - b'0')
value_from-concat acc [] c = refl
value_from-concat acc (x ∷ s) c = value_from-concat (acc * 10 + (x - b'0')) s c

AllDigits-concat : (s : Bytes) (c : ℕ) → AllDigits s → is_digit c ≡ true → AllDigits (s ++ c ∷ [])
AllDigits-concat [] c a h = (h, tt)
AllDigits-concat (x ∷ s) c (a, more) h = (a, AllDigits-concat s c more h)

power_lem : (k lim : ℕ) → lim * 10 ^ k < u64_mod → power k lim ≡ lim * 10 ^ k
unfolding power
power_lem zero lim h = omega arith
power_lem (suc k) lim h =
    let e : lim * 10 ^ suc k ≡ lim * 10 * 10 ^ k = rw pow-succ' (omega arith) in
    let le : lim * 10 * 1 ≤ lim * 10 * 10 ^ k = grind (arith, one-le-pow k 10) in
    rw (wrap_small (lim * 10) (omega arith)) (power_lem k (lim * 10) (omega arith) ∙ omega arith)

subtract_lem :
    (f rest lim dig : ℕ)
    → rest ≤ f
    → 0 < lim
    → ((subtract f rest lim dig).0 * lim + (subtract f rest lim dig).1 ≡ dig * lim + rest)
      × ((subtract f rest lim dig).1 < lim)
unfolding subtract
subtract_lem zero rest lim dig h p = (refl, omega arith)
subtract_lem (suc f) rest lim dig h p = ground (arith, subtract_lem f (rest - lim) lim (dig + 1))

-- The state of the loop when `pos` positions are left to print of the number `n`.
record Inv (n pos : ℕ) (buffer : Bytes) (rest : ℕ) : Type 0 where
  total : value_from 0 buffer * 10 ^ pos + rest ≡ n
  below : rest < 10 ^ pos
  digits : AllDigits buffer
  leading : deref buffer ≢ b'0'
  size : length buffer + pos ≤ 20

deref-concat :
    (s : Bytes) (c : ℕ) → deref s ≢ b'0' → (s ≡ [] → c ≢ b'0') → deref (s ++ c ∷ []) ≢ b'0'
deref-concat [] c h k = k refl
deref-concat (x ∷ s) c h k = h

digit_small : (dig lim left rest : ℕ) → dig * lim + left ≡ rest → rest < 10 * lim → dig < 10
digit_small dig lim left rest e h = grind arith

-- The digit `dig` goes into the buffer and `left` is what remains of `rest`.
module _ (n pos dig left : ℕ) (buffer : Bytes) (rest : ℕ) (i : Inv n (suc pos) buffer rest)
    (e : dig * 10 ^ pos + left ≡ rest) (h : left < 10 ^ pos) where
  dig_small : dig < 10
  dig_small = digit_small dig (10 ^ pos) left rest e (rw (← pow-succ') i.below)

  append_total : value_from 0 (buffer ++ (b'0' + dig) ∷ []) * 10 ^ pos + left ≡ n
  append_total =
      let start : value_from 0 buffer * (10 * 10 ^ pos) + rest ≡ n = rw (← pow-succ') i.total in
      let cancel : b'0' + dig - b'0' ≡ dig = omega arith in
      rw (value_from-concat, cancel) (omega arith)

  append_digits : AllDigits (buffer ++ (b'0' + dig) ∷ [])
  append_digits =
      let small = dig_small in AllDigits-concat buffer (b'0' + dig) i.digits (ground arith)

  append_size : length (buffer ++ (b'0' + dig) ∷ []) + pos ≤ 20
  append_size = rw length-append (omega (arith, i.size))

  Inv-append : (buffer ≡ [] → dig ≢ 0) → Inv n pos (buffer ++ (b'0' + dig) ∷ []) left
  Inv-append nonzero = record {
    total = append_total;
    below = h;
    digits = append_digits;
    leading =
        deref-concat buffer (b'0' + dig) i.leading (λ empty same. nonzero empty (omega arith));
    size = append_size;
  }

power_one : (pos : ℕ) → pos ≤ 19 → power pos 1 ≡ 10 ^ pos
power_one pos h =
    let le : 10 ^ pos ≤ 10 ^ 19 = pow-le-pow_right (omega arith) h in
    power_lem pos 1 (omega arith) ∙ omega arith

round_tests :
    (buffer : Bytes) (lim rest pos : ℕ)
    → pos ≢ 0
    → (ltb 0 (length buffer) || leb lim rest || pos == 0) ≡ false
    → (buffer ≡ []) × (rest < lim)
round_tests buffer lim rest pos h = ground arith

round_dig :
    (buffer : Bytes) (dig lim left rest pos : ℕ)
    → pos ≢ 0
    → dig * lim + left ≡ rest
    → left < lim
    → (ltb 0 (length buffer) || leb lim rest || pos == 0) ≡ true
    → buffer ≡ []
    → dig ≢ 0
round_dig [] zero lim left rest pos h e l t empty = ground arith
round_dig [] (suc dig) lim left rest pos h e l t empty = λ z. omega arith
round_dig (x ∷ b) dig lim left rest pos h e l t empty = cc

Inv-skip :
    (n pos rest : ℕ) (buffer : Bytes)
    → Inv n (suc pos) buffer rest
    → (buffer ≡ []) × (rest < 10 ^ pos)
    → Inv n pos buffer rest
Inv-skip n pos rest [] i (e, l) = record {
  total = omega (arith, i.total);
  below = l;
  digits = tt;
  leading = i.leading;
  size = omega (arith, i.size);
}
Inv-skip n pos rest (x ∷ buffer) i (e, l) = cc

round-Inv :
    (n pos : ℕ) (buffer : Bytes) (rest : ℕ)
    → pos ≤ 19
    → pos ≢ 0
    → Inv n (suc pos) buffer rest
    → Inv n pos (itoa_round pos buffer rest).0 (itoa_round pos buffer rest).1
unfolding itoa_round
round-Inv n pos buffer rest h nz i = rw (power_one pos h) (
    let (e, l) =
      subtract_lem rest rest (10 ^ pos) 0 (omega arith) (one-le-pow pos 10 (omega arith)) in
    let split : (subtract rest rest (10 ^ pos) 0).0 * 10 ^ pos + (subtract rest rest (10 ^ pos) 0).1
        ≡ rest =
      omega arith in
    elim (Bool-cases (ltb 0 (length buffer) || leb (10 ^ pos) rest || pos == 0)) [
      | inl p ↦ rw p (
          Inv-append n pos _ _ buffer rest i split l
            (round_dig buffer _ (10 ^ pos) _ rest pos nz split l p))
      | inr p ↦ rw p (Inv-skip n pos rest buffer i (round_tests buffer (10 ^ pos) rest pos nz p))
    ])

-- `s` is the decimal numeral of `n`: the value is right, all bytes are digits, and no zero leads.
pub record IsDecimal (n : ℕ) (s : Bytes) : Type 0 where
  pub value : value_from 0 s ≡ n
  pub digits : AllDigits s
  pub leading : n ≢ 0 → deref s ≢ b'0'
  pub size : length s ≤ 20
  pub nonempty : 0 < length s

round_zero :
    (buffer : Bytes) (rest : ℕ)
    → (itoa_round 0 buffer rest).0 ≡ buffer ++ (b'0' + (subtract rest rest 1 0).0) ∷ []
unfolding itoa_round
round_zero buffer rest = ground arith

last_digit :
    (n : ℕ) (buffer : Bytes) (rest : ℕ)
    → Inv n 1 buffer rest
    → IsDecimal n (buffer ++ (b'0' + rest) ∷ [])
last_digit n buffer rest i =
    let cancel : b'0' + rest - b'0' ≡ rest = omega arith in
    let small : rest < 10 = omega (arith, i.below) in
    record {
      value = rw (value_from-concat, cancel) (omega (arith, i.total));
      digits = AllDigits-concat buffer (b'0' + rest) i.digits (ground arith);
      leading = λ nz.
          deref-concat buffer (b'0' + rest) i.leading (λ empty same.
            nz (let v : value_from 0 buffer ≡ 0 = rw empty in omega (arith, i.total)));
      size = rw length-append (omega (arith, i.size));
      nonempty = rw length-append (omega arith);
    }

itoa_loop-IsDecimal :
    (n pos : ℕ) (buffer : Bytes) (rest : ℕ)
    → pos ≤ 19
    → Inv n (suc pos) buffer rest
    → IsDecimal n (itoa_loop pos buffer rest)
unfolding itoa_loop
itoa_loop-IsDecimal n zero buffer rest h i =
    let (e, l) = subtract_lem rest rest 1 0 (omega arith) (omega arith) in
    let same : (subtract rest rest 1 0).0 ≡ rest = omega arith in
    rw (round_zero, same) (last_digit n buffer rest i)
itoa_loop-IsDecimal n (suc pos) buffer rest h i =
    itoa_loop-IsDecimal n pos _ _ (omega arith)
      (round-Inv n (suc pos) buffer rest h (λ z. omega arith) i)

-- `itoa` prints the decimal numeral of every number that 64 bits hold: no zero leads but in "0"
-- itself, and the numeral and its terminator fit the buffer of 21 bytes.
pub itoa-IsDecimal : (n : ℕ) → n < u64_mod → IsDecimal n (itoa n)
unfolding itoa
itoa-IsDecimal n h = itoa_loop-IsDecimal n 19 [] n (omega arith) (record {
  total = omega arith;
  below = omega arith;
  digits = tt;
  leading = λ (e : ◌≡◌ {A = ℕ} 0 48). omega arith;
  size = omega arith;
})
