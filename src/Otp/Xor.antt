-- ===== src/Otp/Xor.antt =====
-- The exclusive or of programs/otp.c undoes itself.
use punchcardos.Otp.{xor_bits, xor, xor_bytes}
use punchcardos.Prelude.{
  ℕ, zero, suc, ◌+◌, ◌*◌, ◌/◌, ◌%◌, ◌<◌, ◌≤◌, ◌≡◌, refl, ap, [], ◌∷◌, ◌++◌, Bytes, length, take,
  arith,
}
use punchcardos.Sys.Reads.{AreBytes}

-- So many halvings leave nothing of the number.
FitsIn : ℕ → ℕ → Type 0
FitsIn zero a = a ≡ 0
FitsIn (suc w) a = FitsIn w (a / 2)

xor_bits-xor_bits : (w a b : ℕ) → FitsIn w a → xor_bits w (xor_bits w a b) b ≡ a
unfolding xor_bits FitsIn
xor_bits-xor_bits zero a b h = omega arith
xor_bits-xor_bits (suc w) a b h =
    let r = xor_bits w (a / 2) (b / 2) in
    let half : ((a + b) % 2 + 2 * r) / 2 ≡ r = omega arith in
    let back : xor_bits w r (b / 2) ≡ a / 2 = xor_bits-xor_bits w (a / 2) (b / 2) h in
    rw (half, back) (omega arith)

byte-FitsIn : (a : ℕ) → a < 256 → FitsIn 8 a
unfolding FitsIn
byte-FitsIn a h = omega arith

pub xor-xor : (a b : ℕ) → a < 256 → xor (xor a b) b ≡ a
xor-xor a b h = xor_bits-xor_bits 8 a b (byte-FitsIn a h)

-- The longer one does not matter behind the end of the shorter.
pub xor_bytes-take : (xs ys : Bytes) → xor_bytes xs (take (length xs) ys) ≡ xor_bytes xs ys
unfolding xor_bytes
xor_bytes-take [] ys = refl
xor_bytes-take (x ∷ xs) [] = refl
xor_bytes-take (x ∷ xs) (y ∷ ys) = ap (◌∷◌ (xor x y)) (xor_bytes-take xs ys)

pub length-xor_bytes :
    (xs ys : Bytes) → length xs ≤ length ys → length (xor_bytes xs ys) ≡ length xs
unfolding xor_bytes
length-xor_bytes [] ys h = refl
length-xor_bytes (x ∷ xs) [] h = absurd (omega arith)
length-xor_bytes (x ∷ xs) (y ∷ ys) h = ap suc (length-xor_bytes xs ys (omega arith))

-- What is encrypted with a key that is long enough is decrypted with it.
pub xor_bytes-xor_bytes :
    (xs ys : Bytes) → AreBytes xs → length xs ≤ length ys → xor_bytes (xor_bytes xs ys) ys ≡ xs
unfolding xor_bytes
xor_bytes-xor_bytes [] ys bs h = refl
xor_bytes-xor_bytes (x ∷ xs) [] bs h = absurd (omega arith)
xor_bytes-xor_bytes (x ∷ xs) (y ∷ ys) (AreBytes.cons b bs) h =
    rw (xor-xor x y b) (ap (◌∷◌ x) (xor_bytes-xor_bytes xs ys bs (omega arith)))

pub xor_bytes-append :
    (xs ys us vs : Bytes)
    → length xs ≡ length ys
    → xor_bytes (xs ++ us) (ys ++ vs) ≡ xor_bytes xs ys ++ xor_bytes us vs
unfolding xor_bytes
xor_bytes-append [] [] us vs h = refl
xor_bytes-append [] (y ∷ ys) us vs h = absurd (omega arith)
xor_bytes-append (x ∷ xs) [] us vs h = absurd (omega arith)
xor_bytes-append (x ∷ xs) (y ∷ ys) us vs h =
    ap (◌∷◌ (xor x y)) (xor_bytes-append xs ys us vs (omega arith))
