-- ===== src/Cut/Samples.antt =====
-- Runs of programs/cut.c on concrete lines.
use punchcardos.Cut.Ranges.Numerals.{parse_range-itoa}
use punchcardos.Cut.Ranges.{Range, parse_range}
use punchcardos.Timeconst.Decimal.{itoa}
use punchcardos.Cut.Select.Columns.{columns, cut_bytes-columns}
use punchcardos.Cut.Select.Loop.{content, all_lines, written_for, io_of, Succeeds}
use punchcardos.Cut.Select.Split.{selected, cut_fields-selected}
use punchcardos.Cut.Select.{Flags, line_delim, lower, upper, cut_bytes, cut_fields}
use punchcardos.Cut.Send.Complete.{IsComplete, safe_write-IsComplete}
use punchcardos.Cut.Send.{safe_write}
use punchcardos.Prelude.{
  ℕ, zero, suc, ap, length, ◌-◌, ◌≡◌, refl, false, some, Bytes, List, [], ◌∷◌, ◌++◌, codes, arith,
}
use punchcardos.Sys.{WriteEvent, accept, interrupt, Output}

abbrev lines : List Bytes
lines = codes "ab:c:de" ∷ codes "f" ∷ []

abbrev range : Range
range = record { start = 2; end = 3 }

abbrev flags : Flags
flags = record { zero_term = false; only_delim = false }

abbrev short_writes : List WriteEvent
short_writes = accept 1 ∷ accept 4 ∷ []

abbrev slow_output : Output
slow_output = record { written = []; events = accept 2 ∷ interrupt ∷ accept 1 ∷ [] }

cut_bytes-columns_example :
    Succeeds
      (cut_bytes 0 flags range (io_of (content (line_delim flags) lines []) [] short_writes))
      (written_for
        (columns (line_delim flags) (lower range) (upper range - lower range))
        (all_lines (line_delim flags) lines []))
cut_bytes-columns_example =
    cut_bytes-columns 0 flags range lines [] [] short_writes (ground arith) (ground arith)
      (ground arith) (ground arith) tt

cut_fields-selected_example :
    Succeeds
      (cut_fields 0 flags b':' b',' range
        (io_of (content (line_delim flags) lines []) [] short_writes))
      (written_for
        (selected (lower range) (upper range) (line_delim flags) b':' b',')
        (all_lines (line_delim flags) lines []))
cut_fields-selected_example =
    cut_fields-selected 0 b':' b',' flags range lines [] [] short_writes (ground arith)
      (ground arith) (ground arith) (ground arith) tt

safe_write-IsComplete_example :
    IsComplete 0 (codes "abcd") slow_output (safe_write (codes "abcd") slow_output)
safe_write-IsComplete_example = safe_write-IsComplete (codes "abcd") slow_output tt

filled : ℕ → Bytes
filled zero = []
filled (suc n) = b'x' ∷ filled n

length-filled : (n : ℕ) → length (filled n) ≡ n
unfolding filled
length-filled zero = refl
length-filled (suc n) = ap suc (length-filled n)

parse_range-itoa_example :
    parse_range (some (itoa 3 ++ b'-' ∷ itoa 12)) ≡ some (record { start = 3 - 1; end = 12 })
parse_range-itoa_example = parse_range-itoa 3 12 (omega arith) (omega arith) (omega arith)
