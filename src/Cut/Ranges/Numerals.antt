-- ===== src/Cut/Ranges/Numerals.antt =====
-- `parse_range` of programs/cut.c on two numerals with a dash between them.
use punchcardos.Cut.Ranges.{after_dash, zero_based, parse_dashed, parse_bounds, parse_range}
use punchcardos.Prelude.{
  ℕ, ◌-◌, ◌≤◌, ◌<◌, ◌≡◌, ◌≢◌, refl, sym, ◌∙◌, ap, false, some, Bytes, [], ◌∷◌, ◌++◌, append-nil,
  ◌==◌, ==_ne, lt→ltb, length, deref, arith,
}
use punchcardos.Timeconst.Decimal.Print.{AllDigits, itoa-IsDecimal}
use punchcardos.Timeconst.Decimal.Scan.{atoi-itoa}
use punchcardos.Timeconst.Decimal.{int_max, itoa, atoi}

after_dash-digits : (s t : Bytes) → AllDigits s → after_dash (s ++ b'-' ∷ t) ≡ some t
unfolding after_dash
after_dash-digits [] t a = refl
after_dash-digits (c ∷ s) t (h, a) =
    let no : (c == b'-') ≡ false = ground arith in rw no (after_dash-digits s t a)

-- A numeral in front of the dash, and one behind it.
parse_range-dashed :
    (s t : Bytes) (a b : ℕ)
    → AllDigits s
    → s ≢ []
    → deref t ≢ 0
    → atoi (s ++ b'-' ∷ t) ≡ some a
    → atoi t ≡ some b
    → parse_range (some (s ++ b'-' ∷ t)) ≡ some (zero_based (record { start = a; end = b }))
unfolding parse_range parse_bounds parse_dashed
parse_range-dashed [] t a b d n z e f = absurd (n refl)
parse_range-dashed (c ∷ s) t a b (h, d) n z e f =
    let no : (c == b'-') ≡ false = ground arith in
    rw (after_dash-digits (c ∷ s) t (h, d), no, ==_ne (deref t) 0 z, e, f) refl

some_bytes : (s : Bytes) → 0 < length s → s ≢ []
some_bytes [] h e = absurd (omega arith)
some_bytes (c ∷ s) h e = ground arith

deref-AllDigits : (s : Bytes) → 0 < length s → AllDigits s → deref s ≢ 0
deref-AllDigits [] h a e = absurd (omega arith)
deref-AllDigits (c ∷ s) h (d, a) e = ground arith

-- Two numerals with a dash between them, the first not 0 and both in the range of an `int`: the range
-- starts one below the first, so that it counts from 0, and ends at the second.
pub parse_range-itoa :
    (a b : ℕ)
    → 0 < a
    → a ≤ int_max
    → b ≤ int_max
    → parse_range (some (itoa a ++ b'-' ∷ itoa b)) ≡ some (record { start = a - 1; end = b })
unfolding zero_based
parse_range-itoa a b p h k =
    let da = itoa-IsDecimal a (omega arith) in
    let db = itoa-IsDecimal b (omega arith) in
    let second : atoi (itoa b) ≡ some b =
      ap atoi (sym (append-nil (itoa b))) ∙ atoi-itoa b [] k refl in
    parse_range-dashed (itoa a) (itoa b) a b da.digits (some_bytes (itoa a) da.nonempty)
      (deref-AllDigits (itoa b) db.nonempty db.digits) (atoi-itoa a (b'-' ∷ itoa b) h refl) second
    ∙ rw (lt→ltb 0 a p) refl
