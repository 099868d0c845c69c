-- ===== src/Cut/Select.antt =====
-- `cut_bytes`, `cut_chars`, `cut_fields` and `cut` of programs/cut.c.
pub mod Loop
pub mod Columns
pub mod Split
pub mod Flag
use punchcardos.Cut.Line.{Reader, readline}
use punchcardos.Cut.Ranges.{Range, bound_unset}
use punchcardos.Cut.Send.{Sent, sent, failed, stuck, safe_write}
use punchcardos.Prelude.{
  ℕ, zero, suc, ◌-◌, Bool, true, false, not, ◌&&◌, ◌||◌, Option, none, some, Bytes, [], ◌∷◌, ◌++◌,
  ltb, leb, ◌==◌, if◌then◌else◌, length, take, drop, min, until_nul,
}
use punchcardos.Sys.{
  Output, Written, count, eintr, error, write, Outcome, returns, exits, undefined, out_of_fuel,
  exit_success, exit_failure,
}

-- The bits of `flags` that the code sets.
pub record Flags : Type 0 where
  pub zero_term : Bool
  pub only_delim : Bool

abbrev pub size_max : ℕ
size_max = 18_446_744_073_709_551_615

abbrev pub line_delim : Flags → ℕ
line_delim f = if f.zero_term then 0 else b'\n'

abbrev pub lower : Range → ℕ
lower r = if r.start == bound_unset then 0 else r.start

abbrev pub upper : Range → ℕ
upper r = if r.end == bound_unset then size_max else r.end

-- The outcome of a step with what has been written.
abbrev pub Step : Type 0 → Type 0
Step A = Outcome A × Output

after_write : Written → Output → Step (Unit {0})
after_write (count n) o = (returns tt, o)
after_write eintr o = (exits exit_failure, o)
after_write error o = (exits exit_failure, o)

-- if (write(ofd, &c, 1) < 0) { …; return EXIT_FAILURE; }
unfoldable pub write_byte : ℕ → Output → Step (Unit {0})
unfolding after_write write
write_byte c o = after_write (write (c ∷ []) o).0 (write (c ∷ []) o).1

after_send : Sent → Output → Step (Unit {0})
after_send (sent n) o = (returns tt, o)
after_send failed o = (exits exit_failure, o)
after_send stuck o = (out_of_fuel, o)

-- if (safe_write(ofd, buf, count) < 0) { …; return EXIT_FAILURE; }
unfoldable pub send : Bytes → Output → Step (Unit {0})
unfolding after_send safe_write
send buf o = after_send (safe_write buf o).0 (safe_write buf o).1

abbrev pub next {ℓ} :
    {A : Type ℓ} {B : Type 0} → Outcome A × Output → (A → Output → Step B) → Step B
next (returns a, o) f = f a o
next (exits n, o) f = (exits n, o)
next (undefined, o) f = (undefined, o)
next (out_of_fuel, o) f = (out_of_fuel, o)

-- One line of `cut_bytes`: `len` bytes from `start` on, and the delimiter. A line that ends before
-- `start` is passed over.
unfoldable pub cut_bytes_line : ℕ → ℕ → ℕ → Bytes → Output → Step (Unit {0})
unfolding send write_byte
cut_bytes_line delim start len line o =
    if ltb (length line) start
    then (returns tt, o)
    else next (send (take (min (length line - start) len) (drop start line)) o)
        (λ _ o'. write_byte delim o')

-- The end of a field in `cut_fields`: it is written if it is in range, behind the output delimiter
-- unless it is the first. The result is `wrote_a_field`.
unfoldable pub end_field : ℕ → ℕ → ℕ → ℕ → Bool → Bytes → Output → Step Bool
unfolding send write_byte
end_field start end odel field wrote text o =
    if ltb field start || leb end field
    then (returns wrote, o)
    else next (if wrote then write_byte odel o else (returns tt, o))
        (λ _ o'. next (send text o') (λ _ o''. (returns true, o'')))

-- The loop over the bytes of a line: `text` is what has been read of the field. The result is the
-- number of fields.
unfoldable pub fields_loop : ℕ → ℕ → ℕ → ℕ → ℕ → Bool → Bytes → Bytes → Output → Step ℕ
unfolding end_field
fields_loop start end idel odel field wrote text [] o =
    next (end_field start end odel field wrote text o) (λ _ o'. (returns (suc field), o'))
fields_loop start end idel odel field wrote text (c ∷ line) o =
    let onward = fields_loop start end idel odel field wrote (text ++ c ∷ []) line o in
    let ended =
      next (end_field start end odel field wrote text o)
        (λ wrote' o'. fields_loop start end idel odel (suc field) wrote' [] line o') in
    if c == idel then ended else onward

-- One line of `cut_fields`.
unfoldable pub cut_fields_line : ℕ → ℕ → ℕ → Bool → ℕ → ℕ → Bytes → Output → Step (Unit {0})
unfolding fields_loop
cut_fields_line start end delim only_delim idel odel line o =
    next (fields_loop start end idel odel 0 false [] line o) (λ field o'.
      next (if not only_delim && field == 0 then send line o' else (returns tt, o'))
        (λ _ o''. write_byte delim o''))

-- The state of a run over one file: the reader, and what has been written.
pub record Io : Type 0 where
  pub reader : Reader
  pub out : Output

-- What follows a line that has been written.
after_line : Step (Unit {0}) → Reader → (Io → Outcome ℕ × Io) → Outcome ℕ × Io
after_line (returns _, o) r again = again (record { reader = r; out = o })
after_line (exits n, o) r again = (exits n, record { reader = r; out = o })
after_line (undefined, o) r again = (undefined, record { reader = r; out = o })
after_line (out_of_fuel, o) r again = (out_of_fuel, record { reader = r; out = o })

-- A line is a string: it is seen up to its first NUL. A null pointer, at the end of the file or at
-- a failed read, ends the loop.
lines_round :
    Outcome (Option Bytes × Reader)
    → (Bytes → Output → Step (Unit {0}))
    → Io
    → (Io → Outcome ℕ × Io)
    → Outcome ℕ × Io
unfolding after_line until_nul
lines_round (returns (none, r)) line_step io again =
    (returns exit_success, record { reader = r; out = io.out })
lines_round (returns (some line, r)) line_step io again =
    after_line (line_step (until_nul line) io.out) r again
lines_round (exits n) line_step io again = (exits n, io)
lines_round undefined line_step io again = (undefined, io)
lines_round out_of_fuel line_step io again = (out_of_fuel, io)

-- while (line = readline(ifd, line_delim)) …
unfoldable pub lines_loop : ℕ → ℕ → ℕ → (Bytes → Output → Step (Unit {0})) → Io → Outcome ℕ × Io
unfolding lines_round
lines_loop zero garbage delim line_step io = (out_of_fuel, io)
lines_loop (suc f) garbage delim line_step io =
    lines_round (readline (suc (length io.reader.stream)) garbage delim io.reader) line_step io
      (lines_loop f garbage delim line_step)

-- Each line but the last takes a byte of the file, so these rounds are enough.
abbrev pub rounds : Io → ℕ
rounds io = suc (suc (length io.reader.stream))

unfoldable pub cut_bytes : ℕ → Flags → Range → Io → Outcome ℕ × Io
unfolding lines_loop cut_bytes_line
cut_bytes garbage flags range io =
    if leb (upper range) (lower range)
    then (returns exit_failure, io)
    else lines_loop (rounds io) garbage (line_delim flags)
        (cut_bytes_line (line_delim flags) (lower range) (upper range - lower range)) io

unfoldable pub cut_fields : ℕ → Flags → ℕ → ℕ → Range → Io → Outcome ℕ × Io
unfolding lines_loop cut_fields_line
cut_fields garbage flags idel odel range io =
    if leb (upper range) (lower range)
    then (returns exit_failure, io)
    else lines_loop (rounds io) garbage (line_delim flags)
        (cut_fields_line (lower range) (upper range) (line_delim flags) flags.only_delim idel odel)
        io

pub data CutType : Type 0 where
  unset bytes chars fields : CutType

unfoldable pub cut : ℕ → CutType → Flags → ℕ → ℕ → Range → Io → Outcome ℕ × Io
unfolding cut_bytes cut_fields
cut garbage bytes flags idel odel range io = cut_bytes garbage flags range io
cut garbage chars flags idel odel range io = cut_bytes garbage flags range io
cut garbage fields flags idel odel range io = cut_fields garbage flags idel odel range io
cut garbage unset flags idel odel range io = (returns exit_failure, io)
