-- ===== src/Cut/Select/Loop.antt =====
-- The loop of `cut_bytes` and `cut_fields` of programs/cut.c over the lines of a file, for any
-- treatment of a line.
use punchcardos.Cut.Line.Read.{
  events_of, is_skipped, stripped, HasNo, last_byte, readline_loop-delimited, readline_loop-last,
}
use punchcardos.Cut.Line.{bufsiz, finish_line, readline}
use punchcardos.Cut.Select.{Step, Io, lines_loop}
use punchcardos.Cut.Send.Complete.{out}
use punchcardos.Prelude.{
  ℕ, zero, suc, ◌+◌, ◌≤◌, ◌<◌, ◌≡◌, ◌≢◌, refl, ◌∙◌, true, false, none, some, Bytes, List, [], ◌∷◌,
  ◌++◌, append-nil, append_assoc, length, until_nul, arith,
}
use punchcardos.Sys.{
  ByteEvent, byte, WriteEvent, accept, interrupt, refuse, Output, Outcome, returns, exit_success,
}

-- An output that may take less than it is given, but always something.
abbrev pub Takes : List WriteEvent → Type 0
Takes [] = Unit {0}
Takes (accept zero ∷ es) = ⊥
Takes (accept (suc k) ∷ es) = Takes es
Takes (interrupt ∷ es) = ⊥
Takes (refuse ∷ es) = ⊥

-- The file: lines, each with its delimiter, and what stands behind the last delimiter.
abbrev pub content : ℕ → List Bytes → Bytes → List ByteEvent
content delim [] last = events_of last []
content delim (r ∷ rs) last = events_of r (byte delim ∷ content delim rs last)

-- The lines that `readline` returns. Nothing is returned for an end of which nothing is kept.
abbrev pub last_line : Bytes → List Bytes
last_line [] = []
last_line (b ∷ l) = (b ∷ l) ∷ []

abbrev pub all_lines : ℕ → List Bytes → Bytes → List Bytes
all_lines delim [] last = last_line (stripped delim last)
all_lines delim (r ∷ rs) last = stripped delim r ∷ all_lines delim rs last

-- What a treatment that writes `sel line` writes for all of them.
abbrev pub written_for : (Bytes → Bytes) → List Bytes → Bytes
written_for sel [] = []
written_for sel (l ∷ ls) = sel (until_nul l) ++ written_for sel ls

-- Each line is free of the delimiter and fits the buffer.
abbrev pub FitsBuffer : ℕ → Bytes → Type 0
FitsBuffer delim r = HasNo delim r × (length (stripped delim r) ≤ bufsiz)

abbrev pub AllFit : ℕ → List Bytes → Type 0
AllFit delim [] = Unit {0}
AllFit delim (r ∷ rs) = FitsBuffer delim r × AllFit delim rs

-- The file does not end in a carriage return that is skipped, and the garbage in `c` is none.
abbrev pub EndsWell : ℕ → ℕ → Bytes → Type 0
EndsWell garbage delim last =
    (garbage ≢ b'\r') × (is_skipped delim (last_byte garbage last) ≡ false)

-- The treatment of a line writes `sel line`.
pub record Selects (step : Bytes → Output → Step (Unit {0})) (sel : Bytes → Bytes) : Type 0 where
  pub on_line :
      (line w : Bytes) (es : List WriteEvent)
      → Takes es
      → (es' : List WriteEvent) × Takes es'
        × (step line (out w es) ≡ (returns tt, out (w ++ sel line) es'))

abbrev pub io_of : List ByteEvent → Bytes → List WriteEvent → Io
io_of stream w es = record { reader = record { stream = stream; linebuf = [] }; out = out w es }

pub length-events_of :
    (text : Bytes) (es : List ByteEvent) → length (events_of text es) ≡ length text + length es
length-events_of [] es = omega arith
length-events_of (b ∷ text) es = omega (arith, length-events_of text es)

finish_line-cons :
    (b : ℕ) (l : Bytes)
    → finish_line true [] (b ∷ l) ≡ returns (some (b ∷ l), record { stream = []; linebuf = [] })
unfolding finish_line
finish_line-cons b l = ground arith

module _ (garbage delim : ℕ) (no_return : garbage ≢ b'\r') (delim_ok : delim ≢ b'\r') where
  readline-line :
      (r : Bytes) (rest : List ByteEvent)
      → FitsBuffer delim r
      → (let stream = events_of r (byte delim ∷ rest) in
          readline (suc (length stream)) garbage delim (record { stream = stream; linebuf = [] }))
        ≡ returns (some (stripped delim r), record { stream = rest; linebuf = [] })
  unfolding readline
  readline-line r rest (n, fits) =
      readline_loop-delimited r (suc (length (events_of r (byte delim ∷ rest)))) delim garbage rest
        [] n delim_ok (omega arith) (omega (arith, length-events_of r (byte delim ∷ rest)))

  readline-last :
      (last : Bytes)
      → FitsBuffer delim last
      → is_skipped delim (last_byte garbage last) ≡ false
      → (let stream = events_of last [] in
          readline (suc (length stream)) garbage delim (record { stream = stream; linebuf = [] }))
        ≡ finish_line true [] (stripped delim last)
  unfolding readline
  readline-last last (n, fits) e =
      readline_loop-last last (suc (length (events_of last []))) delim garbage [] n e (omega arith)
        (omega (arith, length-events_of last []))

  not_skipped : is_skipped delim garbage ≡ false
  not_skipped = ground arith

  module _ (step : Bytes → Output → Step (Unit {0})) (sel : Bytes → Bytes)
      (good : Selects step sel) where
    -- One round on a line that is there.
    round_line :
        (f : ℕ) (l w : Bytes) (es : List WriteEvent) (stream rest : List ByteEvent)
        → Takes es
        → readline (suc (length stream)) garbage delim (record { stream = stream; linebuf = [] })
          ≡ returns (some l, record { stream = rest; linebuf = [] })
        → (es' : List WriteEvent) × Takes es'
          × (lines_loop (suc f) garbage delim step (io_of stream w es)
              ≡ lines_loop f garbage delim step (io_of rest (w ++ sel (until_nul l)) es'))
    unfolding lines_loop
    round_line f l w es stream rest t e =
        let (es', t', s) = good.on_line (until_nul l) w es t in (es', t', rw e (rw s refl))

    -- The round at the end of the file.
    round_end :
        (f : ℕ) (w : Bytes) (es : List WriteEvent) (stream : List ByteEvent)
        → readline (suc (length stream)) garbage delim (record { stream = stream; linebuf = [] })
          ≡ returns (none, record { stream = []; linebuf = [] })
        → lines_loop (suc f) garbage delim step (io_of stream w es)
          ≡ (returns exit_success, io_of [] w es)
    unfolding lines_loop
    round_end f w es stream e = rw e refl

    loop_last :
        (f : ℕ) (kept w : Bytes) (es : List WriteEvent) (stream : List ByteEvent)
        → Takes es
        → readline (suc (length stream)) garbage delim (record { stream = stream; linebuf = [] })
          ≡ finish_line true [] kept
        → (es' : List WriteEvent) × Takes es'
          × (lines_loop (suc (suc f)) garbage delim step (io_of stream w es)
              ≡ (returns exit_success, io_of [] (w ++ written_for sel (last_line kept)) es'))
    unfolding finish_line
    loop_last f [] w es stream t e = (es, t, rw append-nil (round_end (suc f) w es stream e))
    loop_last f (b ∷ l) w es stream t e =
        let (es', t', r) = round_line (suc f) (b ∷ l) w es stream [] t (e ∙ finish_line-cons b l) in
        (
          es',
          t',
          r ∙ rw append-nil (round_end f _ es' [] (readline-last [] (tt, omega arith) not_skipped)),
        )

    pub loop_lines :
        (rs : List Bytes) (f : ℕ) (last w : Bytes) (es : List WriteEvent)
        → AllFit delim rs
        → FitsBuffer delim last
        → is_skipped delim (last_byte garbage last) ≡ false
        → suc (length rs) < f
        → Takes es
        → (es' : List WriteEvent) × Takes es'
          × (lines_loop f garbage delim step (io_of (content delim rs last) w es) ≡ (
            returns exit_success,
            io_of [] (w ++ written_for sel (all_lines delim rs last)) es',
          ))
    loop_lines rs zero last w es a l e h t = absurd (omega arith)
    loop_lines rs (suc zero) last w es a l e h t = absurd (omega arith)
    loop_lines [] (suc (suc f)) last w es a l e h t =
        loop_last f (stripped delim last) w es (events_of last []) t (readline-last last l e)
    loop_lines (r ∷ rs) (suc (suc f)) last w es (fits, a) l e h t =
        let (es', t', round) =
          round_line (suc f) (stripped delim r) w es (content delim (r ∷ rs) last)
            (content delim rs last) t (readline-line r (content delim rs last) fits) in
        let (es'', t'', more) = loop_lines rs (suc f) last _ es' a l e (omega arith) t' in
        (es'', t'', round ∙ more ∙ rw append_assoc)

-- The run over a file succeeds: the file is read to its end, nothing is left in the buffer, and
-- `text` is what has been written.
pub record Succeeds (r : Outcome ℕ × Io) (text : Bytes) : Type 0 where
  pub left : List WriteEvent
  pub takes : Takes left
  pub result : r ≡ (returns exit_success, io_of [] text left)

pub Succeeds-of :
    {r : Outcome ℕ × Io} {text : Bytes}
    → (es : List WriteEvent) × Takes es × (r ≡ (returns exit_success, io_of [] text es))
    → Succeeds r text
Succeeds-of (es, t, e) = record { left = es; takes = t; result = e }
