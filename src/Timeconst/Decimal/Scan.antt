-- ===== src/Timeconst/Decimal/Scan.antt =====
-- `atoi` of programs/bc4linux.c on what `itoa` prints.
use punchcardos.Prelude.{
  ℕ, ◌+◌, ◌-◌, ◌*◌, ◌≤◌, ◌≡◌, refl, ap, ◌∙◌, false, some, Bytes, [], ◌∷◌, ◌++◌, deref, is_digit,
  arith,
}
use punchcardos.Timeconst.Decimal.Print.{value_from, AllDigits, itoa-IsDecimal}
use punchcardos.Timeconst.Decimal.{int_max, atoi_from, atoi, itoa}

value_from-le : (acc : ℕ) (s : Bytes) → acc ≤ value_from acc s
value_from-le acc [] = omega arith
value_from-le acc (c ∷ s) = omega (arith, value_from-le (acc * 10 + (c - b'0')) s)

-- `atoi` reads the digits in front, if their value fits an `int`, and stops at the first byte that
-- is no digit.
pub atoi_from-AllDigits :
    (acc : ℕ) (s rest : Bytes)
    → AllDigits s
    → value_from acc s ≤ int_max
    → is_digit (deref rest) ≡ false
    → atoi_from acc (s ++ rest) ≡ some (value_from acc s)
unfolding atoi_from
atoi_from-AllDigits acc [] [] a v h = refl
atoi_from-AllDigits acc [] (c ∷ rest) a v h = ground arith
atoi_from-AllDigits acc (c ∷ s) rest a v h = ground (
  arith,
  atoi_from-AllDigits (acc * 10 + (c - b'0')) s rest,
  value_from-le (acc * 10 + (c - b'0')) s,
)

-- Reading what `itoa` printed, with anything but a digit behind it, gives the number back.
pub atoi-itoa :
    (n : ℕ) (rest : Bytes)
    → n ≤ int_max
    → is_digit (deref rest) ≡ false
    → atoi (itoa n ++ rest) ≡ some n
unfolding atoi
atoi-itoa n rest h stop =
    let d = itoa-IsDecimal n (omega arith) in
    let fits : value_from 0 (itoa n) ≤ int_max = omega (arith, d.value) in
    atoi_from-AllDigits 0 (itoa n) rest d.digits fits stop ∙ ap some d.value
