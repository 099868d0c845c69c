-- ===== src/Cut/Select/Columns.antt =====
-- `cut_bytes` of programs/cut.c on a whole file.
use punchcardos.Cut.Ranges.{Range}
use punchcardos.Cut.Select.Loop.{
  Takes, content, all_lines, written_for, FitsBuffer, AllFit, EndsWell, Selects, io_of, loop_lines,
  Succeeds, Succeeds-of, length-events_of,
}
use punchcardos.Cut.Select.{
  Flags, line_delim, lower, upper, write_byte, send, cut_bytes_line, cut_bytes,
}
use punchcardos.Cut.Send.Complete.{Patient, out, safe_write-IsComplete}
use punchcardos.Prelude.{
  ℕ, zero, suc, ◌-◌, ◌≤◌, ◌<◌, ◌≡◌, ◌≢◌, refl, Bytes, List, [], ◌∷◌, ◌++◌, append-nil, append_assoc,
  ltb, if◌then◌else◌, lt→leb_false, length, length-drop, take, drop, take-min, take_nil, min, inl,
  inr, Bool-cases, arith,
}
use punchcardos.Sys.{byte, WriteEvent, accept, interrupt, refuse, write, returns}

pub Takes→Patient : (es : List WriteEvent) → Takes es → Patient es
Takes→Patient [] t = tt
Takes→Patient (accept zero ∷ es) t = absurd t
Takes→Patient (accept (suc k) ∷ es) t = Takes→Patient es t
Takes→Patient (interrupt ∷ es) t = absurd t
Takes→Patient (refuse ∷ es) t = absurd t

Takes-drop : (n : ℕ) (es : List WriteEvent) → Takes es → Takes (drop n es)
Takes-drop zero es t = t
Takes-drop (suc n) [] t = tt
Takes-drop (suc n) (accept zero ∷ es) t = absurd t
Takes-drop (suc n) (accept (suc k) ∷ es) t = Takes-drop n es t
Takes-drop (suc n) (interrupt ∷ es) t = absurd t
Takes-drop (suc n) (refuse ∷ es) t = absurd t

-- The whole buffer is written, and the output goes on taking.
pub send-Takes :
    (buf w : Bytes) (es : List WriteEvent)
    → Takes es
    → (es' : List WriteEvent) × Takes es' × (send buf (out w es) ≡ (returns tt, out (w ++ buf) es'))
unfolding send
send-Takes buf w es t =
    let c = safe_write-IsComplete buf (out w es) (Takes→Patient es t) in
    (
      drop c.used es,
      Takes-drop c.used es t,
      rw c.all_sent (λ i. (returns tt, record { written = c.written i; events = c.events i })),
    )

pub write_byte-Takes :
    (c : ℕ) (w : Bytes) (es : List WriteEvent)
    → Takes es
    → (es' : List WriteEvent) × Takes es'
      × (write_byte c (out w es) ≡ (returns tt, out (w ++ c ∷ []) es'))
unfolding write_byte write
write_byte-Takes c w [] t = ([], tt, refl)
write_byte-Takes c w (accept zero ∷ es) t = absurd t
write_byte-Takes c w (accept (suc k) ∷ es) t = (es, t, rw take_nil)
write_byte-Takes c w (interrupt ∷ es) t = absurd t
write_byte-Takes c w (refuse ∷ es) t = absurd t

-- The columns of a line with a delimiter behind them; nothing for a line that ends before them.
abbrev pub columns : ℕ → ℕ → ℕ → Bytes → Bytes
columns delim start len line =
    if ltb (length line) start then [] else take len (drop start line) ++ delim ∷ []

min-take :
    (start len : ℕ) (line : Bytes)
    → take (min (length line - start) len) (drop start line) ≡ take len (drop start line)
min-take start len line = rw (← length-drop start line) (take-min len (drop start line))

cut_bytes_line-Selects :
    (delim start len : ℕ) → Selects (cut_bytes_line delim start len) (columns delim start len)
unfolding cut_bytes_line
cut_bytes_line-Selects delim start len = record {
  on_line = λ line w es t. elim (Bool-cases (ltb (length line) start)) [
    | inl p ↦ (es, t, rw (p, append-nil))
    | inr p ↦
        let (es', t', s) = send-Takes (take len (drop start line)) w es t in
        let (es'', t'', d) = write_byte-Takes delim (w ++ take len (drop start line)) es' t' in
        (es'', t'', rw (p, min-take start len line, s, d) (rw append_assoc))
  ];
}

pub line_delim_ok : (flags : Flags) → line_delim flags ≢ b'\r'
line_delim_ok flags = ground arith

pub length-content :
    (delim : ℕ) (rs : List Bytes) (last : Bytes) → length rs ≤ length (content delim rs last)
length-content delim [] last = omega arith
length-content delim (r ∷ rs) last =
    omega
      (arith, length-content delim rs last, length-events_of r (byte delim ∷ content delim rs last))

-- With a range that is not empty, on a file that fits and ends well, `cut_bytes` succeeds: it has
-- read the whole file, and has written the columns of every line, however short the writes were.
pub cut_bytes-columns :
    (garbage : ℕ) (flags : Flags) (range : Range) (rs : List Bytes) (last w : Bytes)
    (es : List WriteEvent)
    → lower range < upper range
    → AllFit (line_delim flags) rs
    → FitsBuffer (line_delim flags) last
    → EndsWell garbage (line_delim flags) last
    → Takes es
    → Succeeds (cut_bytes garbage flags range (io_of (content (line_delim flags) rs last) w es)) (
        w
        ++ written_for
            (columns (line_delim flags) (lower range) (upper range - lower range))
            (all_lines (line_delim flags) rs last))
unfolding cut_bytes
cut_bytes-columns garbage flags range rs last w es r a l (g, e) t =
    rw (lt→leb_false (upper range) (lower range) r) (
      Succeeds-of (
        loop_lines garbage (line_delim flags) g (line_delim_ok flags) _ _
          (cut_bytes_line-Selects (line_delim flags) (lower range) (upper range - lower range)) rs
          (suc (suc (length (content (line_delim flags) rs last)))) last w es a l e
          (omega (arith, length-content (line_delim flags) rs last)) t))
