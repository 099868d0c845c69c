-- ===== src/Numbers/Numerals.antt =====
-- Sizes with a unit, of programs/truncate.c and programs/dd.c, on the numerals of programs/bc4linux.c.
use punchcardos.Numbers.{size, long_max, digits, scaled, with_unit, behind_digits, parse_number}
use punchcardos.Prelude.{
  ℕ, ◌+◌, ◌-◌, ◌*◌, ◌≤◌, ◌≡◌, ◌≢◌, refl, ◌∙◌, sym, ap, true, false, some, Bytes, [], ◌∷◌, ◌++◌,
  append-nil, ==_ne, ==_refl, leb, le→leb, is_digit, deref, length, ◌<◌, arith,
}
use punchcardos.Timeconst.Decimal.Print.{value_from, AllDigits, itoa-IsDecimal}
use punchcardos.Timeconst.Decimal.{itoa}

value_from-grows : (acc : ℕ) (s : Bytes) → acc ≤ value_from acc s
value_from-grows acc [] = omega arith
value_from-grows acc (c ∷ s) = omega (arith, value_from-grows (acc * 10 + (c - b'0')) s)

digits-AllDigits :
    (acc : ℕ) (s rest : Bytes)
    → AllDigits s
    → value_from acc s + b'0' ≤ long_max
    → is_digit (deref rest) ≡ false
    → digits acc (s ++ rest) ≡ some (value_from acc s, rest)
unfolding digits
digits-AllDigits acc [] [] a v h = refl
digits-AllDigits acc [] (c ∷ rest) a v h = rw h refl
digits-AllDigits acc (c ∷ s) rest (d, a) v h =
    let e : acc * 10 + c - b'0' ≡ acc * 10 + (c - b'0') = ground arith in
    let grows = value_from-grows (acc * 10 + (c - b'0')) s in
    let fits : leb (acc * 10 + c) long_max ≡ true = le→leb (acc * 10 + c) long_max (omega arith) in
    rw (d, fits, e) (digits-AllDigits (acc * 10 + (c - b'0')) s rest a v h)

deref-AllDigits :
    (s rest : Bytes) → 0 < length s → AllDigits s → is_digit (deref (s ++ rest)) ≡ true
deref-AllDigits [] rest h a = absurd (omega arith)
deref-AllDigits (c ∷ s) rest h (d, a) = d

-- A numeral is read whole, and what stands behind it decides on the unit.
parse_number-with_unit :
    (kilo n : ℕ) (rest : Bytes)
    → n + b'0' ≤ long_max
    → is_digit (deref rest) ≡ false
    → parse_number kilo (itoa n ++ rest) ≡ with_unit kilo n rest
unfolding parse_number behind_digits
parse_number-with_unit kilo n rest h stop =
    let d = itoa-IsDecimal n (omega arith) in
    let first = deref-AllDigits (itoa n) rest d.nonempty d.digits in
    let all : digits 0 (itoa n ++ rest) ≡ some (n, rest) =
      digits-AllDigits 0 (itoa n) rest d.digits (omega (arith, d.value)) stop
      ∙ ap (λ v. some (v, rest)) d.value in
    rw (first, all) refl

-- A numeral gives its number, and with the letter for 1024 behind it 1024 times its number, for every
-- letter that is no digit and no larger unit, as long as the product fits a `long`.
parse_number-itoa :
    (kilo n : ℕ)
    → is_digit kilo ≡ false
    → kilo ≢ b'G'
    → kilo ≢ b'M'
    → n * 1_024 ≤ long_max
    → (parse_number kilo (itoa n) ≡ size n)
      × (parse_number kilo (itoa n ++ kilo ∷ []) ≡ size (n * 1_024))
unfolding with_unit scaled
parse_number-itoa kilo n k g m h =
    let fits : leb (n * 1_024) long_max ≡ true = le→leb (n * 1_024) long_max h in
    (
      ap (parse_number kilo) (sym (append-nil (itoa n)))
          ∙ parse_number-with_unit kilo n [] (omega arith) refl,
      parse_number-with_unit kilo n (kilo ∷ []) (omega arith) k
          ∙ rw (==_ne kilo b'G' g, with_unit)
              (rw (==_ne kilo b'M' m) (rw (==_refl kilo) (rw fits refl))),
    )
