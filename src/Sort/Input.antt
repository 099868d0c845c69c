-- ===== src/Sort/Input.antt =====
-- readline and read_lines of programs/sort.c and programs/uniq.c. `rc` and `n` differ in their type:
-- `n` is a `size_t`, so that a negative result of readline is a large number there and `n < 0` is
-- never true.
pub mod Text
use punchcardos.Prelude.{
  ℕ, zero, suc, ◌+◌, Bool, true, false, List, [], ◌∷◌, ◌++◌, Bytes, Option, none, some, length,
  ◌==◌, if◌then◌else◌, until_nul,
}
use punchcardos.Sort.Lines.{Heap, allocate, Lines, lines_append}
use punchcardos.Sys.{ByteEvent, byte, failed, Outcome, returns, exits, undefined}

-- The stdio buffer size of the C library.
abbrev pub bufsiz : ℕ
bufsiz = 8_192

-- Why the loop of readline has ended: at a newline or the end of the file, for an error, or because
-- `linebuf` is full.
pub data Stop : Type 0 where
  ended : Stop
  read_error : Stop
  full : Stop

abbrev pub LoopEnd : Type 0
LoopEnd = Stop × List ByteEvent × Bytes

-- while ((rc = read(fd, &c, 1)) == 1). The bytes in `linebuf` stay there from one call to the next.
unfoldable pub readline_loop : List ByteEvent → Bytes → LoopEnd
readline_loop [] buf = (ended, [], buf)
readline_loop (failed ∷ es) buf = (read_error, es, buf)
readline_loop (byte c ∷ es) buf =
    if c == b'\r'
    then readline_loop es buf
    else if c == b'\n'
    then (ended, es, buf)
    else if length buf == bufsiz
    then (full, es, buf)
    else readline_loop es (buf ++ c ∷ [])

-- What readline returns: a line, whose length may be 0, or one of its negative codes.
pub data Reply : Type 0 where
  text : Bytes → Reply
  negative : Reply

pub record Reading : Type 0 where
  pub reply : Reply
  pub events : List ByteEvent
  pub linebuf : Bytes
  pub heap : Heap

-- Behind the loop. When malloc fails, `linebuf` is not emptied.
after_loop : LoopEnd → Heap → Reading
after_loop (read_error, es, buf) h = record {
  reply = negative;
  events = es;
  linebuf = buf;
  heap = h;
}
after_loop (full, es, buf) h = record { reply = negative; events = es; linebuf = buf; heap = h }
after_loop (ended, es, buf) h =
    if (allocate h).0
    then record { reply = text buf; events = es; linebuf = []; heap = (allocate h).1 }
    else record { reply = negative; events = es; linebuf = buf; heap = (allocate h).1 }

unfoldable pub readline : List ByteEvent → Bytes → Heap → Reading
unfolding after_loop readline_loop
readline es buf h = after_loop (readline_loop es buf) h

-- The static variables of the program, and the coming allocations.
pub record State : Type 0 where
  pub linebuf : Bytes
  pub lines : Lines
  pub heap : Heap

-- The rest of a round with the line appended, and the rounds behind it.
appended :
    List ByteEvent
    → Bytes
    → (List ByteEvent → State → Outcome (List ByteEvent × State))
    → Outcome (Lines × Heap)
    → Outcome (List ByteEvent × State)
appended es buf again (returns r) = again es (record { linebuf = buf; lines = r.0; heap = r.1 })
appended es buf again (exits n) = exits n
appended es buf again undefined = undefined
appended es buf again Outcome.out_of_fuel = Outcome.out_of_fuel

-- A line without bytes ends the loop as the end of the file does. A string ends at its first NUL.
-- After a negative result the pointer that is appended is the one of an earlier line, or none at all.
round :
    Reading
    → Lines
    → (List ByteEvent → State → Outcome (List ByteEvent × State))
    → Outcome (List ByteEvent × State)
unfolding appended
round r l again = elim r.reply [
  | text [] ↦ returns (r.events, record { linebuf = r.linebuf; lines = l; heap = r.heap })
  | text (c ∷ s) ↦
      appended r.events r.linebuf again (lines_append (some (until_nul (c ∷ s))) l r.heap)
  | negative ↦ appended r.events r.linebuf again (lines_append none l r.heap)
]

-- The loop of read_lines, which returns EXIT_SUCCESS whenever it returns.
unfoldable pub read_lines : ℕ → List ByteEvent → State → Outcome (List ByteEvent × State)
unfolding round
read_lines zero es st = Outcome.out_of_fuel
read_lines (suc f) es st =
    round (readline es st.linebuf st.heap) st.lines (λ es' st'. read_lines f es' st')
