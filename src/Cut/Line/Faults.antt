-- ===== src/Cut/Line/Faults.antt =====
-- `readline` of programs/cut.c on a carriage return at the end, and on lines beyond its buffer.
use punchcardos.Cut.Line.Read.{events_of, is_skipped, stripped, HasNo, last_byte}
use punchcardos.Cut.Line.{bufsiz, readline_loop}
use punchcardos.Prelude.{
  ℕ, zero, suc, ◌+◌, ◌≤◌, ◌<◌, ◌≡◌, refl, true, Bytes, List, [], ◌∷◌, ◌++◌, inl, inr, ltb, lt→ltb,
  ltb→lt, ==_ne, Bool-cases, length, length-append, arith,
}
use punchcardos.Sys.{ByteEvent, undefined, out_of_fuel}

-- After a carriage return as the last byte the loop reads the end of the file for ever, since it
-- tests the byte of the read before: no number of rounds is enough.
pub readline_loop-last_return :
    (text : Bytes) (f delim c : ℕ) (buf : Bytes)
    → HasNo delim text
    → is_skipped delim (last_byte c text) ≡ true
    → length buf + length (stripped delim text) ≤ bufsiz
    → readline_loop f delim c (events_of text []) buf ≡ out_of_fuel
unfolding readline_loop
readline_loop-last_return text zero delim c buf n d s = refl
readline_loop-last_return [] (suc f) delim c buf n d s =
    rw d (readline_loop-last_return [] f delim c buf n d s)
readline_loop-last_return (b ∷ text) (suc f) delim c buf (nb, n) d s =
    elim (Bool-cases (is_skipped delim b)) [
      | inl p ↦ let s' = rw p at s in rw p (readline_loop-last_return text f delim b buf n d s')
      | inr p ↦
          let s' : length buf + suc (length (stripped delim text)) ≤ bufsiz = rw p at s in
          let fits : length (buf ++ b ∷ []) + length (stripped delim text) ≤ bufsiz =
            rw length-append (omega arith) in
          rw (p, ==_ne b delim nb, lt→ltb (length buf) bufsiz (omega arith))
            (readline_loop-last_return text f delim b (buf ++ b ∷ []) n d fits)
    ]

-- A line of more than 8192 bytes is stored beyond the end of `linebuf`.
pub readline_loop-overrun :
    (text : Bytes) (f delim c : ℕ) (es : List ByteEvent) (buf : Bytes)
    → HasNo delim text
    → length buf ≤ bufsiz
    → bufsiz < length buf + length (stripped delim text)
    → length text < f
    → readline_loop f delim c (events_of text es) buf ≡ undefined
unfolding readline_loop
readline_loop-overrun text zero delim c es buf n l s h = absurd (omega arith)
readline_loop-overrun [] (suc f) delim c es buf n l s h = absurd (omega arith)
readline_loop-overrun (b ∷ text) (suc f) delim c es buf (nb, n) l s h =
    elim (Bool-cases (is_skipped delim b)) [
      | inl p ↦
          let s' = rw p at s in
          rw p (readline_loop-overrun text f delim b es buf n l s' (omega arith))
      | inr p ↦
          let s' : bufsiz < length buf + suc (length (stripped delim text)) = rw p at s in
          elim (Bool-cases (ltb (length buf) bufsiz)) [
            | inl q ↦
                let room = ltb→lt (length buf) bufsiz q in
                let longer : length (buf ++ b ∷ []) ≤ bufsiz = rw length-append (omega arith) in
                let more : bufsiz < length (buf ++ b ∷ []) + length (stripped delim text) =
                  rw length-append (omega arith) in
                rw (p, ==_ne b delim nb, q)
                  (readline_loop-overrun text f delim b es (buf ++ b ∷ []) n longer more
                    (omega arith))
            | inr q ↦ rw (p, ==_ne b delim nb, q)
          ]
    ]
