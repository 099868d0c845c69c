-- ===== src/Hexdump/Back.antt =====
-- Reading a line of programs/hexdump.c back: the offset and the bytes that it shows.
use punchcardos.Hexdump.{
  to_hex_char, nibble, offset_to_hex, hex_bytes, spaces, padded, hexdump_line,
}
use punchcardos.Prelude.{
  ℕ, suc, ◌+◌, ◌-◌, ◌*◌, ◌/◌, ◌%◌, ◌^◌, ◌<◌, ◌≤◌, ◌≡◌, refl, ap, false, [], ◌∷◌, ◌++◌, Bytes,
  length, leb, ◌==◌, if◌then◌else◌, take, drop, append_assoc, arith,
}
use punchcardos.Hexdump.Line.{front, length-front}
use punchcardos.Sys.Reads.{AreBytes}

-- The value of a digit.
abbrev pub digit : ℕ → ℕ
digit c = if leb c b'9' then c - b'0' else c - b'A' + 10

abbrev pub value : ℕ → Bytes → ℕ
value n [] = n
value n (c ∷ s) = value (n * 16 + digit c) s

-- The bytes of the middle column, which ends at a space in the place of a digit.
unfoldable pub read_pairs : Bytes → Bytes
read_pairs (a ∷ b ∷ c ∷ s) = if a == b' ' then [] else (digit a * 16 + digit b) ∷ read_pairs s
read_pairs _ = []

unfoldable pub read_line : Bytes → ℕ × Bytes
unfolding read_pairs
read_line s = (value 0 (take 8 (drop 2 s)), read_pairs (drop 11 s))

pub digit-to_hex_char : (n : ℕ) → n < 16 → digit (to_hex_char n) ≡ n
digit-to_hex_char n h = ground arith

to_hex_char-visible : (n : ℕ) → n < 16 → (to_hex_char n == b' ') ≡ false
to_hex_char-visible n h = ground arith

read_pairs-space : (s : Bytes) → read_pairs (b' ' ∷ s) ≡ []
unfolding read_pairs
read_pairs-space [] = refl
read_pairs-space (a ∷ []) = refl
read_pairs-space (a ∷ b ∷ s) = refl

read_pairs-hex_bytes :
    (bytes s : Bytes) → AreBytes bytes → read_pairs (hex_bytes bytes ++ b' ' ∷ s) ≡ bytes
unfolding hex_bytes read_pairs
read_pairs-hex_bytes [] s AreBytes.nil = read_pairs-space s
read_pairs-hex_bytes (c ∷ bytes) s (AreBytes.cons h bs) =
    let high : c / 16 < 16 = omega arith in
    let low : c % 16 < 16 = omega arith in
    let whole : c / 16 * 16 + c % 16 ≡ c = omega arith in
    rw (to_hex_char-visible (c / 16) high) (
      rw (digit-to_hex_char (c / 16) high, digit-to_hex_char (c % 16) low, whole)
        (ap (◌∷◌ c) (read_pairs-hex_bytes bytes s bs)))

nibble-value : (x unit : ℕ) → digit (to_hex_char (nibble x unit)) ≡ nibble x unit
nibble-value x unit = digit-to_hex_char (nibble x unit) (omega arith)

value-offset_to_hex : (x : ℕ) → x < 2 ^ 32 → value 0 (take 8 (offset_to_hex x)) ≡ x
value-offset_to_hex x h =
    let e0 : 0 + x / 0x10000000 % 16 ≡ x / 0x10000000 = omega arith in
    let e1 : x / 0x10000000 * 16 + x / 0x1000000 % 16 ≡ x / 0x1000000 = omega arith in
    let e2 : x / 0x1000000 * 16 + x / 0x100000 % 16 ≡ x / 0x100000 = omega arith in
    let e3 : x / 0x100000 * 16 + x / 0x10000 % 16 ≡ x / 0x10000 = omega arith in
    let e4 : x / 0x10000 * 16 + x / 0x1000 % 16 ≡ x / 0x1000 = omega arith in
    let e5 : x / 0x1000 * 16 + x / 0x100 % 16 ≡ x / 0x100 = omega arith in
    let e6 : x / 0x100 * 16 + x / 0x10 % 16 ≡ x / 0x10 = omega arith in
    let e7 : x / 0x10 * 16 + x / 1 % 16 ≡ x = omega arith in
    rw
      (
        nibble-value x 0x10000000,
        nibble-value x 0x1000000,
        nibble-value x 0x100000,
        nibble-value x 0x10000,
        nibble-value x 0x1000,
        nibble-value x 0x100,
        nibble-value x 0x10,
        nibble-value x 0x1,
      )
      (rw (e0, e1, e2, e3, e4, e5, e6, e7) refl)

-- The spaces of the padding come before the other column.
read_line-padded :
    (bytes s : Bytes) (offset n : ℕ)
    → AreBytes bytes
    → read_line ((front bytes offset ++ spaces (suc n)) ++ s) ≡ (offset % 2 ^ 32, bytes)
unfolding read_line spaces
read_line-padded bytes s offset n bs =
    let number = value-offset_to_hex (offset % 2 ^ 32) (omega arith) in
    let column : read_pairs ((hex_bytes bytes ++ b' ' ∷ spaces n) ++ s) ≡ bytes =
      rw (append_assoc (hex_bytes bytes) (b' ' ∷ spaces n) s)
        (read_pairs-hex_bytes bytes (spaces n ++ s) bs) in
    rw (number, column) refl

-- What can be read back from a line of at most 16 bytes: these bytes, and the offset as a number of 32
-- bits.
pub read_line-hexdump_line :
    (bytes : Bytes) (offset : ℕ)
    → AreBytes bytes
    → length bytes ≤ 16
    → read_line (hexdump_line bytes offset) ≡ (offset % 2 ^ 32, bytes)
unfolding hexdump_line padded
read_line-hexdump_line bytes offset bs h =
    let size = length-front bytes offset in
    let room : 61 - length (front bytes offset) ≡ suc (60 - length (front bytes offset)) =
      omega arith in
    rw room (read_line-padded bytes _ offset (60 - length (front bytes offset)) bs)
