-- ===== src/Hexdump/Line.antt =====
-- The lines of programs/hexdump.c: their size, and what can be read back from them.
use punchcardos.Hexdump.{
  offset_to_hex, shown, print_ascii_column, hex_bytes, spaces, padded, hexdump_line,
}
use punchcardos.Prelude.{
  take_front, drop_front, ℕ, zero, suc, ◌+◌, ◌-◌, ◌*◌, ◌%◌, ◌^◌, ◌≤◌, ◌<◌, ◌≡◌, refl, sym, ap, ◌∙◌,
  ◌⊎◌, inl, inr, leb, leb→le, Bool-cases, take, drop, append_assoc, [], ◌∷◌, ◌++◌, Bytes, length,
  length-append, arith,
}

length-shown : (bytes : Bytes) → length (shown bytes) ≡ length bytes
unfolding shown
length-shown [] = refl
length-shown (c ∷ bytes) = ap suc (length-shown bytes)

pub length-hex_bytes : (bytes : Bytes) → length (hex_bytes bytes) ≡ 3 * length bytes
unfolding hex_bytes
length-hex_bytes [] = refl
length-hex_bytes (c ∷ bytes) = omega (arith, length-hex_bytes bytes)

length-spaces : (n : ℕ) → length (spaces n) ≡ n
unfolding spaces
length-spaces zero = refl
length-spaces (suc n) = ap suc (length-spaces n)

length-padded : (buf : Bytes) → length buf ≤ 61 → length (padded buf) ≡ 61
unfolding padded
length-padded buf h =
    omega (arith, length-append buf (spaces (61 - length buf)), length-spaces (61 - length buf))

-- The part of a line before the padding.
abbrev pub front : Bytes → ℕ → Bytes
front bytes offset = b'0' ∷ b'x' ∷ (offset_to_hex (offset % 2 ^ 32) ++ hex_bytes bytes)

pub length-front :
    (bytes : Bytes) (offset : ℕ) → length (front bytes offset) ≡ 11 + 3 * length bytes
length-front bytes offset = omega (arith, length-hex_bytes bytes)

length-hexdump_line :
    (bytes : Bytes) (offset : ℕ)
    → length bytes ≤ 16
    → length (hexdump_line bytes offset) ≡ 64 + length bytes
unfolding hexdump_line
length-hexdump_line bytes offset h =
    let begin = length-padded (front bytes offset) (omega (arith, length-front bytes offset)) in
    omega (
      arith,
      begin,
      length-append (padded (front bytes offset)) (print_ascii_column bytes ++ b'\n' ∷ []),
      length-append (shown bytes ++ b'|' ∷ []) (b'\n' ∷ []),
      length-append (shown bytes) (b'|' ∷ []),
      length-shown bytes,
    )

-- The text column has a printable byte of ASCII as it is, and a dot for any other.
abbrev pub Shows : Bytes → Bytes → Type 0
Shows [] [] = Unit {0}
Shows [] (d ∷ text) = ⊥
Shows (c ∷ bytes) [] = ⊥
Shows (c ∷ bytes) (d ∷ text) =
    (((0x20 ≤ c) × ((c ≤ 0x7E) × (d ≡ c))) ⊎ (((c < 0x20) ⊎ (0x7E < c)) × (d ≡ b'.')))
    × Shows bytes text

shown-Shows : (bytes : Bytes) → Shows bytes (shown bytes)
unfolding shown
shown-Shows [] = tt
shown-Shows (c ∷ bytes) = elim (Bool-cases (leb 0x20 c)) [
  | inr low ↦ rw low (inr (inl (ground arith), refl), shown-Shows bytes)
  | inl above ↦ elim (Bool-cases (leb c 0x7E)) [
    | inl below ↦
        rw (above, below)
          (inl (leb→le 0x20 c above, (leb→le c 0x7E below, refl)), shown-Shows bytes)
    | inr high ↦ rw (above, high) (inr (inr (ground arith), refl), shown-Shows bytes)
  ]
]

-- The columns of a line.
pub record HasColumns (bytes : Bytes) (offset : ℕ) (line : Bytes) : Type 0 where
  pub text : Bytes
  pub offset_column : take 11 line ≡ b'0' ∷ b'x' ∷ offset_to_hex (offset % 2 ^ 32)
  pub hex_column : take 50 (drop 11 line) ≡ hex_bytes bytes ++ spaces (50 - 3 * length bytes)
  pub text_column : drop 61 line ≡ b'|' ∷ (text ++ (b'|' ∷ b'\n' ∷ []))
  pub shows : Shows bytes text
  pub size : length line ≡ 64 + length bytes

-- A line of at most 16 bytes: the offset is in the bytes 0 to 10, the digits of the bytes and blanks behind
-- them are in the bytes 11 to 60, and the text begins at the byte 61 in a bar and ends with a bar
-- and a newline; so the columns of all lines begin at the same places. The whole has 64 bytes more
-- than it shows, for which the array of 100 bytes has room.
pub hexdump_line-HasColumns :
    (bytes : Bytes) (offset : ℕ)
    → length bytes ≤ 16
    → HasColumns bytes offset (hexdump_line bytes offset)
unfolding hexdump_line padded
hexdump_line-HasColumns bytes offset h =
    let hex = hex_bytes bytes in
    let begin = b'0' ∷ b'x' ∷ offset_to_hex (offset % 2 ^ 32) in
    let blanks : 61 - length (front bytes offset) ≡ 50 - 3 * length bytes =
      omega (arith, length-front bytes offset) in
    let pad = spaces (61 - length (front bytes offset)) in
    let tail = print_ascii_column bytes ++ b'\n' ∷ [] in
    let all = length-padded (front bytes offset) (omega (arith, length-front bytes offset)) in
    let middle : length (hex ++ pad) ≡ 50 = omega (
      arith,
      length-append hex pad,
      length-hex_bytes bytes,
      length-spaces (61 - length (front bytes offset)),
      length-front bytes offset,
    ) in
    let digits : ((hex ++ pad) ++ tail) ≡ drop 11 (hexdump_line bytes offset) = refl in
    record {
      text = shown bytes;
      offset_column = refl;
      hex_column =
          ap (take 50) (sym digits)
          ∙ (take_front 50 (hex ++ pad) tail middle ∙ ap (λ n. hex ++ spaces n) blanks);
      text_column =
          drop_front 61 (padded (front bytes offset)) tail all
          ∙ ap (◌∷◌ b'|') (append_assoc (shown bytes) (b'|' ∷ []) (b'\n' ∷ []));
      shows = shown-Shows bytes;
      size = length-hexdump_line bytes offset h;
    }
