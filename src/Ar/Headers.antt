-- ===== src/Ar/Headers.antt =====
-- The headers that programs/ar.c writes, as it reads them.
use punchcardos.Ar.Listing.{atol_from, atol, read_header, end_at_slash, end_name, size_of}
use punchcardos.Ar.{field, header, member_header}
use punchcardos.Prelude.{
  ℕ, zero, suc, ◌+◌, ◌-◌, ◌*◌, ◌^◌, ◌<◌, ◌≤◌, ◌≡◌, refl, sym, ap, ◌∙◌, false, [], ◌∷◌, ◌++◌, Bytes,
  length, take, drop, ◌==◌, codes, append_assoc, append-nil, length-append, length-take,
  length-drop, drop_all, take_front, drop_front, Bool-cases, inl, inr, is_digit, deref, is_prefix,
  until_nul, arith,
}
use punchcardos.Timeconst.Decimal.Print.{value_from, AllDigits, itoa-IsDecimal}
use punchcardos.Timeconst.Decimal.{itoa}

length-field : (n : ℕ) (s : Bytes) → length (field n s) ≡ n
unfolding field
length-field zero s = refl
length-field (suc n) [] = ap suc (length-field n [])
length-field (suc n) (c ∷ s) = ap suc (length-field n s)

field-pad : (n : ℕ) (s : Bytes) → length s ≤ n → field n s ≡ s ++ field (n - length s) []
unfolding field
field-pad n [] h = let e : n - 0 ≡ n = omega arith in rw e refl
field-pad zero (c ∷ s) h = absurd (omega arith)
field-pad (suc n) (c ∷ s) h =
    let e : suc n - suc (length s) ≡ n - length s = omega arith in
    rw e (ap (◌∷◌ c) (field-pad n s (omega arith)))

take-field : (n : ℕ) (s rest : Bytes) → take n (field (suc n) s ++ rest) ≡ field n s
unfolding field
take-field zero s rest = refl
take-field (suc n) [] rest = ap (◌∷◌ b' ') (take-field n [] rest)
take-field (suc n) (c ∷ s) rest = ap (◌∷◌ c) (take-field n s rest)

pad_stops :
    (n : ℕ) (rest : Bytes)
    → is_digit (deref rest) ≡ false
    → is_digit (deref (field n [] ++ rest)) ≡ false
unfolding field
pad_stops zero rest h = h
pad_stops (suc n) rest h = refl

atol_from-AllDigits :
    (acc : ℕ) (s rest : Bytes)
    → AllDigits s
    → is_digit (deref rest) ≡ false
    → atol_from acc (s ++ rest) ≡ value_from acc s
unfolding atol_from
atol_from-AllDigits acc [] [] a h = refl
atol_from-AllDigits acc [] (c ∷ rest) a h = rw h refl
atol_from-AllDigits acc (c ∷ s) rest (d, a) h =
    rw (d, atol_from) (atol_from-AllDigits (acc * 10 + (c - b'0')) s rest a h)

-- A number in a field with anything but a digit behind it.
pub atol-field :
    (w n : ℕ) (rest : Bytes)
    → length (itoa n) ≤ w
    → n < 2 ^ 64
    → is_digit (deref rest) ≡ false
    → atol (field w (itoa n) ++ rest) ≡ n
atol-field w n rest h k stop =
    let d = itoa-IsDecimal n k in
    let pad = field (w - length (itoa n)) [] in
    rw (field-pad w (itoa n) h, append_assoc (itoa n) pad rest)
      (atol_from-AllDigits 0 (itoa n) (pad ++ rest) d.digits
          (pad_stops (w - length (itoa n)) rest stop)
        ∙ d.value)

abbrev front : Bytes → Bytes → Bytes → Bytes
front name nought mode =
    field 16 name ++ (field 12 nought ++ (field 6 nought ++ (field 6 nought ++ field 8 mode)))

length-front : (name nought mode : Bytes) → length (front name nought mode) ≡ 48
length-front name nought mode = omega (
  arith,
  length-append (field 16 name)
      (field 12 nought ++ (field 6 nought ++ (field 6 nought ++ field 8 mode))),
  length-append (field 12 nought) (field 6 nought ++ (field 6 nought ++ field 8 mode)),
  length-append (field 6 nought) (field 6 nought ++ field 8 mode),
  length-append (field 6 nought) (field 8 mode),
  length-field 16 name,
  length-field 12 nought,
  length-field 6 nought,
  length-field 8 mode,
)

header-front :
    (name nought mode size : Bytes)
    → header name nought mode size ≡ front name nought mode ++ (field 10 size ++ codes "`\n")
unfolding header
header-front name nought mode size = simp append_assoc

pub length-header : (name nought mode size : Bytes) → length (header name nought mode size) ≡ 60
length-header name nought mode size =
    ap length (header-front name nought mode size)
    ∙ omega (
      arith,
      length-append (front name nought mode) (field 10 size ++ codes "`\n"),
      length-append (field 10 size) (codes "`\n"),
      length-field 10 size,
      length-front name nought mode,
    )

pub size_of-header :
    (name nought mode : Bytes) (n : ℕ)
    → length (itoa n) ≤ 10
    → n < 2 ^ 64
    → size_of (header name nought mode (itoa n)) ≡ n
size_of-header name nought mode n h k =
    ap size_of (header-front name nought mode (itoa n))
    ∙ (ap atol (
          drop_front 48 (front name nought mode) (field 10 (itoa n) ++ codes "`\n")
            (length-front name nought mode))
        ∙ atol-field 10 n (codes "`\n") h k refl)

pub read_header-whole :
    (h rest hdr : Bytes) → length h ≡ 60 → length hdr ≡ 60 → read_header (h ++ rest) hdr ≡ h
read_header-whole h rest hdr e k =
    let same : length h ≡ length hdr = e ∙ sym k in
    rw (take_front 60 h rest e, same, drop_all hdr) (append-nil h)

length-end_at_slash : (n : ℕ) (s : Bytes) → length (end_at_slash n s) ≡ length s
unfolding end_at_slash
length-end_at_slash zero s = refl
length-end_at_slash (suc n) [] = refl
length-end_at_slash (suc n) (c ∷ s) = elim (Bool-cases (c == b'/')) [
  | inl slash ↦ rw (slash, end_at_slash) refl
  | inr other ↦ rw (other, end_at_slash) (ap suc (length-end_at_slash n s))
]

pub length-end_name : (h : Bytes) → length h ≡ 60 → length (end_name h) ≡ 60
unfolding end_name
length-end_name h e =
    length-end_at_slash 15 (take 15 h ++ b'/' ∷ drop 16 h)
    ∙ omega
        (arith, e, length-append (take 15 h) (b'/' ∷ drop 16 h), length-take 15 h, length-drop 16 h)

-- The name of a member's header holds the offset behind a NUL.
pub end_name-member :
    (offset size : ℕ)
    → length (itoa offset) ≤ 14
    → offset < 2 ^ 64
    → (until_nul (end_name (member_header offset size)) ≡ [])
      × (atol (drop 1 (end_name (member_header offset size))) ≡ offset)
unfolding header end_name end_at_slash until_nul field
end_name-member offset size h k =
    let tail =
      field 12 (codes "0")
      ++ (field 6 (codes "0")
          ++ (field 6 (codes "0")
              ++ (field 8 (codes "644") ++ (field 10 (itoa size) ++ codes "`\n")))) in
    let behind = drop 15 (field 15 (itoa offset) ++ tail) in
    let kept = take-field 14 (itoa offset) tail in
    (refl, rw kept (atol-field 14 offset (b'/' ∷ behind) h k refl))

is_prefix-digits :
    (s tail : Bytes)
    → 0 < length s
    → AllDigits s
    → is_prefix (codes "//") (b'/' ∷ (field 15 s ++ tail)) ≡ false
unfolding is_prefix field
is_prefix-digits [] tail h a = absurd (omega arith)
is_prefix-digits (c ∷ s) tail h (d, a) = ground arith

pub member_header-prefix :
    (offset size : ℕ) → offset < 2 ^ 64 → is_prefix (codes "//") (member_header offset size) ≡ false
unfolding header field
member_header-prefix offset size h =
    let d = itoa-IsDecimal offset h in is_prefix-digits (itoa offset) _ d.nonempty d.digits
