-- ===== src/Cut/Select/Split.antt =====
-- `cut_fields` of programs/cut.c on a whole file: the fields of each line, split and joined.
use punchcardos.Cut.Ranges.{Range}
use punchcardos.Cut.Select.Columns.{send-Takes, write_byte-Takes, line_delim_ok, length-content}
use punchcardos.Cut.Select.Loop.{
  Takes, content, all_lines, written_for, FitsBuffer, AllFit, EndsWell, Selects, io_of, loop_lines,
  Succeeds, Succeeds-of,
}
use punchcardos.Cut.Select.{
  Flags, line_delim, lower, upper, next, end_field, fields_loop, cut_fields_line, cut_fields,
}
use punchcardos.Cut.Send.Complete.{out}
use punchcardos.Prelude.{
  ℕ, suc, ◌+◌, ◌-◌, ◌<◌, ◌≡◌, refl, ◌∙◌, ap, Bool, true, false, not, ◌&&◌, ◌||◌, Bytes, List, [],
  ◌∷◌, ◌++◌, append-nil, append_assoc, ltb, leb, ◌==◌, if◌then◌else◌, lt→leb_false, lt→ltb,
  lt→ltb_false, le→leb, dec_lt, ==_ne, length, take, drop, take_nil, drop_nil, max, inl, inr,
  Bool-cases, arith,
}
use punchcardos.Sys.{WriteEvent, Outcome, Output, returns}

-- The fields of a line; `text` is what has been read of the first.
abbrev pub split : ℕ → Bytes → Bytes → List Bytes
split idel text [] = text ∷ []
split idel text (c ∷ line) =
    if c == idel then text ∷ split idel [] line else split idel (text ++ c ∷ []) line

-- The fields from `start` to below `end`, where the first has the number `field`.
abbrev pub chosen : ℕ → ℕ → ℕ → List Bytes → List Bytes
chosen start end field [] = []
chosen start end field (x ∷ xs) =
    if ltb field start || leb end field
    then chosen start end (suc field) xs
    else x ∷ chosen start end (suc field) xs

-- Fields with the delimiter between them, and in front of them if one has been written before.
abbrev pub joined : ℕ → Bool → List Bytes → Bytes
joined odel wrote [] = []
joined odel true (x ∷ xs) = odel ∷ (x ++ joined odel true xs)
joined odel false (x ∷ xs) = x ++ joined odel true xs

joined-cons :
    (odel : ℕ) (wrote : Bool) (x : Bytes) (xs : List Bytes)
    → joined odel wrote (x ∷ []) ++ joined odel true xs ≡ joined odel wrote (x ∷ xs)
joined-cons odel true x xs = rw append-nil
joined-cons odel false x xs = rw append-nil

-- The end of a field out of range does nothing.
end_field-skip :
    (start end odel field : ℕ) (wrote : Bool) (text : Bytes) (o : Output)
    → (ltb field start || leb end field) ≡ true
    → end_field start end odel field wrote text o ≡ (returns wrote, o)
unfolding end_field
end_field-skip start end odel field wrote text o p = rw p

-- The end of a field in range writes it.
end_field-write :
    (start end odel field : ℕ) (wrote : Bool) (text w : Bytes) (es : List WriteEvent)
    → Takes es
    → (ltb field start || leb end field) ≡ false
    → (es' : List WriteEvent) × Takes es'
      × (end_field start end odel field wrote text (out w es)
          ≡ (returns true, out (w ++ joined odel wrote (text ∷ [])) es'))
unfolding end_field
end_field-write start end odel field false text w es t p =
    let (es', t', s) = send-Takes text w es t in (es', t', rw (p, s) (rw append-nil))
end_field-write start end odel field true text w es t p =
    let (es', t', d) = write_byte-Takes odel w es t in
    let (es'', t'', s) = send-Takes text (w ++ odel ∷ []) es' t' in
    (es'', t'', rw (p, d, s) (rw (append-nil, append_assoc)))

-- What the loop over the bytes of a line ends with: the number of fields, and the chosen ones written.
abbrev Ended : ℕ → ℕ → ℕ → ℕ → Bool → List Bytes → Bytes → Outcome ℕ × Output → Type 0
Ended start end odel field wrote parts w r =
    (es' : List WriteEvent) × Takes es'
    × (r ≡ (
      returns (field + length parts),
      out (w ++ joined odel wrote (chosen start end field parts)) es',
    ))

ended_one :
    (start end odel field : ℕ) (wrote : Bool) (text w : Bytes) (es : List WriteEvent)
    → Takes es
    → Ended start end odel field wrote (text ∷ []) w (
        next
          (end_field start end odel field wrote text (out w es))
          (λ _ o'. (returns (suc field), o')))
ended_one start end odel field wrote text w es t =
    let e : field + 1 ≡ suc field = omega arith in
    elim (Bool-cases (ltb field start || leb end field)) [
      | inl p ↦ (
        es,
        t,
        rw (end_field-skip start end odel field wrote text (out w es) p, p, e, append-nil),
      )
      | inr p ↦
          let (es', t', s) = end_field-write start end odel field wrote text w es t p in
          (es', t', rw (s, p, e))
    ]

fields_loop-Takes :
    (line : Bytes) (start end idel odel field : ℕ) (wrote : Bool) (text w : Bytes)
    (es : List WriteEvent)
    → Takes es
    → Ended start end odel field wrote
        (split idel text line)
        w
        (fields_loop start end idel odel field wrote text line (out w es))
unfolding fields_loop
fields_loop-Takes [] start end idel odel field wrote text w es t =
    ended_one start end odel field wrote text w es t
fields_loop-Takes (c ∷ line) start end idel odel field wrote text w es t =
    elim (Bool-cases (c == idel)) [
      | inl d ↦ rw d (elim (Bool-cases (ltb field start || leb end field)) [
        | inl p ↦
            let (es', t', r) =
              fields_loop-Takes line start end idel odel (suc field) wrote [] w es t in
            (
              es',
              t',
              rw (end_field-skip start end odel field wrote text (out w es) p)
                  (r ∙ rw (p, count (length (split idel [] line)))),
            )
        | inr p ↦
            let (es', t', s) = end_field-write start end odel field wrote text w es t p in
            let (es'', t'', r) =
              fields_loop-Takes line start end idel odel (suc field) true []
                (w ++ joined odel wrote (text ∷ [])) es' t' in
            (
              es'',
              t'',
              rw s (r ∙ rw (p, count (length (split idel [] line)), append_assoc, joined-cons)),
            )
      ])
      | inr d ↦
          rw d (fields_loop-Takes line start end idel odel field wrote (text ++ c ∷ []) w es t)
    ]
  where
    count : (n : ℕ) → field + suc n ≡ suc field + n
    count n = omega arith

pub split-cons : (idel : ℕ) (text line : Bytes) → 0 < length (split idel text line)
split-cons idel text [] = omega arith
split-cons idel text (c ∷ line) = ground (arith, split-cons idel (text ++ c ∷ []) line)

-- The fields of a line that the range selects, joined, with the line's delimiter behind them.
abbrev pub selected : ℕ → ℕ → ℕ → ℕ → ℕ → Bytes → Bytes
selected start end delim idel odel line =
    joined odel false (chosen start end 0 (split idel [] line)) ++ delim ∷ []

pub and_false : (b : Bool) → (b && false) ≡ false
and_false true = refl
and_false false = refl

cut_fields_line-Selects :
    (start end delim idel odel : ℕ) (only_delim : Bool)
    → Selects
        (cut_fields_line start end delim only_delim idel odel)
        (selected start end delim idel odel)
unfolding cut_fields_line
cut_fields_line-Selects start end delim idel odel only_delim = record {
  on_line = λ line w es t.
      let parts = split idel [] line in
      let (es', t', r) = fields_loop-Takes line start end idel odel 0 false [] w es t in
      let body = w ++ joined odel false (chosen start end 0 parts) in
      let (es'', t'', d) = write_byte-Takes delim body es' t' in
      let nonzero : (0 + length parts == 0) ≡ false =
        ==_ne (0 + length parts) 0 (λ z. omega (arith, split-cons idel [] line)) in
      (es'', t'', rw r (rw (nonzero, and_false (not only_delim), d) (rw append_assoc)));
}

-- With a range that is not empty, on a file that fits and ends well, `cut_fields` succeeds: it has
-- read the whole file, and has written for every line the selected fields with the output delimiter
-- between them, however short the writes were.
pub cut_fields-selected :
    (garbage idel odel : ℕ) (flags : Flags) (range : Range) (rs : List Bytes) (last w : Bytes)
    (es : List WriteEvent)
    → lower range < upper range
    → AllFit (line_delim flags) rs
    → FitsBuffer (line_delim flags) last
    → EndsWell garbage (line_delim flags) last
    → Takes es
    → Succeeds
        (cut_fields garbage flags idel odel range (io_of (content (line_delim flags) rs last) w es))
        (w
          ++ written_for
              (selected (lower range) (upper range) (line_delim flags) idel odel)
              (all_lines (line_delim flags) rs last))
unfolding cut_fields
cut_fields-selected garbage idel odel flags range rs last w es r a l (g, e) t =
    rw (lt→leb_false (upper range) (lower range) r) (
      Succeeds-of (
        loop_lines garbage (line_delim flags) g (line_delim_ok flags) _ _
          (cut_fields_line-Selects (lower range) (upper range) (line_delim flags) idel odel
            flags.only_delim)
          rs (suc (suc (length (content (line_delim flags) rs last)))) last w es a l e
          (omega (arith, length-content (line_delim flags) rs last)) t))

-- The chosen fields are a stretch of the list of fields.
chosen_stretch :
    (start end field : ℕ) (xs : List Bytes)
    → chosen start end field xs ≡ take (end - max start field) (drop (start - field) xs)
chosen_stretch start end field [] = rw (drop_nil, take_nil)
chosen_stretch start end field (x ∷ xs) = elim (dec_lt field start) [
  | yes p ↦
      let skip : start - field ≡ suc (start - suc field) = omega arith in
      let same : max start (suc field) ≡ max start field = omega arith in
      rw (lt→ltb field start p, skip) (chosen_stretch start end (suc field) xs ∙ rw same)
  | no p ↦ elim (dec_lt field end) [
    | yes q ↦
        let here : start - field ≡ 0 = omega arith in
        let one : end - max start field ≡ suc (end - max start (suc field)) = omega arith in
        let next_here : start - suc field ≡ 0 = omega arith in
        let ih : chosen start end (suc field) xs ≡ take (end - max start (suc field)) xs =
          chosen_stretch start end (suc field) xs ∙ rw next_here in
        rw (lt→ltb_false field start (omega arith), lt→leb_false end field q, here, one)
          (ap (◌∷◌ x) ih)
    | no q ↦
        let none_left : end - max start field ≡ 0 = omega arith in
        let none_next : end - max start (suc field) ≡ 0 = omega arith in
        rw (lt→ltb_false field start (omega arith), le→leb end field (omega arith), none_left)
          (chosen_stretch start end (suc field) xs ∙ rw none_next)
  ]
]

-- Counted from 0, the fields that a line shows are those from `start` to below `end`.
pub chosen-take-drop :
    (start end : ℕ) (xs : List Bytes) → chosen start end 0 xs ≡ take (end - start) (drop start xs)
chosen-take-drop start end xs =
    let from : max start 0 ≡ start = omega arith in
    let skip : start - 0 ≡ start = omega arith in chosen_stretch start end 0 xs ∙ rw (from, skip)
