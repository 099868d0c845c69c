-- ===== src/Cut/Line/Read.antt =====
-- `readline` of programs/cut.c on a line of the file, and at the file's end.
use punchcardos.Cut.Line.{Reader, bufsiz, finish_line, readline_loop}
use punchcardos.Prelude.{
  ℕ, zero, suc, ◌+◌, ◌≤◌, ◌<◌, ◌≡◌, ◌≢◌, ◌∙◌, ap, Bool, true, false, ◌&&◌, Option, some, Bytes,
  List, [], ◌∷◌, ◌++◌, append-nil, append_assoc, inl, inr, ◌==◌, if◌then◌else◌, lt→ltb, ==_ne,
  Bool-cases, length, length-append, arith,
}
use punchcardos.Sys.{ByteEvent, byte, Outcome, returns}

-- The bytes come one by one.
abbrev pub events_of : Bytes → List ByteEvent → List ByteEvent
events_of [] es = es
events_of (b ∷ bs) es = byte b ∷ events_of bs es

-- A carriage return, where lines end in a newline.
abbrev pub is_skipped : ℕ → ℕ → Bool
is_skipped delim b = delim == b'\n' && b == b'\r'

-- What is kept of the text of a line.
abbrev pub stripped : ℕ → Bytes → Bytes
stripped delim [] = []
stripped delim (b ∷ bs) = if is_skipped delim b then stripped delim bs else b ∷ stripped delim bs

-- The text holds no delimiter.
abbrev pub HasNo : ℕ → Bytes → Type 0
HasNo delim [] = Unit {0}
HasNo delim (b ∷ bs) = (b ≢ delim) × HasNo delim bs

-- The last byte of the text, or `c` before a text that is empty.
abbrev pub last_byte : ℕ → Bytes → ℕ
last_byte c [] = c
last_byte c (b ∷ bs) = last_byte b bs

abbrev line_and : List ByteEvent → Bytes → Outcome (Option Bytes × Reader)
line_and es l = returns (some l, record { stream = es; linebuf = [] })

-- A line with its delimiter is returned without its carriage returns, and the file goes on behind it.
pub readline_loop-delimited :
    (text : Bytes) (f delim c : ℕ) (es : List ByteEvent) (buf : Bytes)
    → HasNo delim text
    → delim ≢ b'\r'
    → length buf + length (stripped delim text) ≤ bufsiz
    → length text < f
    → readline_loop f delim c (events_of text (byte delim ∷ es)) buf
      ≡ returns (some (buf ++ stripped delim text), record { stream = es; linebuf = [] })
unfolding readline_loop finish_line
readline_loop-delimited text zero delim c es buf n d s h = absurd (omega arith)
readline_loop-delimited [] (suc f) delim c es buf n d s h = rw append-nil (ground arith)
readline_loop-delimited (b ∷ text) (suc f) delim c es buf (nb, n) d s h =
    elim (Bool-cases (is_skipped delim b)) [
      | inl p ↦
          let s' = rw p at s in
          rw p (readline_loop-delimited text f delim b es buf n d s' (omega arith))
      | inr p ↦
          let s' : length buf + suc (length (stripped delim text)) ≤ bufsiz = rw p at s in
          let fits : length (buf ++ b ∷ []) + length (stripped delim text) ≤ bufsiz =
            rw length-append (omega arith) in
          rw (p, ==_ne b delim nb, lt→ltb (length buf) bufsiz (omega arith))
            (readline_loop-delimited text f delim b es (buf ++ b ∷ []) n d fits (omega arith)
              ∙ ap (line_and es) (append_assoc buf (b ∷ []) (stripped delim text)))
    ]

-- Text without a delimiter at the end of the file is the last line, unless nothing was kept of it.
pub readline_loop-last :
    (text : Bytes) (f delim c : ℕ) (buf : Bytes)
    → HasNo delim text
    → is_skipped delim (last_byte c text) ≡ false
    → length buf + length (stripped delim text) ≤ bufsiz
    → length text < f
    → readline_loop f delim c (events_of text []) buf
      ≡ finish_line true [] (buf ++ stripped delim text)
unfolding readline_loop
readline_loop-last text zero delim c buf n d s h = absurd (omega arith)
readline_loop-last [] (suc f) delim c buf n d s h = rw (append-nil, d)
readline_loop-last (b ∷ text) (suc f) delim c buf (nb, n) d s h =
    elim (Bool-cases (is_skipped delim b)) [
      | inl p ↦
          let s' = rw p at s in rw p (readline_loop-last text f delim b buf n d s' (omega arith))
      | inr p ↦
          let s' : length buf + suc (length (stripped delim text)) ≤ bufsiz = rw p at s in
          let fits : length (buf ++ b ∷ []) + length (stripped delim text) ≤ bufsiz =
            rw length-append (omega arith) in
          rw (p, ==_ne b delim nb, lt→ltb (length buf) bufsiz (omega arith))
            (readline_loop-last text f delim b (buf ++ b ∷ []) n d fits (omega arith)
              ∙ ap (finish_line true []) (append_assoc buf (b ∷ []) (stripped delim text)))
    ]
