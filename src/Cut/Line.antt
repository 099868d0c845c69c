-- ===== src/Cut/Line.antt =====
-- `readline` of programs/cut.c. The static buffer `linebuf` keeps what was read when a read fails,
-- so it is part of the state.
pub mod Read
pub mod Faults
use punchcardos.Prelude.{
  ℕ, zero, suc, Bool, true, false, ◌&&◌, Option, none, some, Bytes, List, [], ◌∷◌, ◌++◌, ltb, ◌==◌,
  if◌then◌else◌, length,
}
use punchcardos.Sys.{ByteEvent, byte, failed, Outcome, returns, undefined, out_of_fuel}

-- The size of `linebuf`.
abbrev pub bufsiz : ℕ
bufsiz = 8_192

-- The file that is read, and the bytes in `linebuf`.
pub record Reader : Type 0 where
  pub stream : List ByteEvent
  pub linebuf : Bytes

-- What follows the loop; `at_end` is `rc == 0`. Memory for the line is taken to be there.
unfoldable pub finish_line : Bool → List ByteEvent → Bytes → Outcome (Option Bytes × Reader)
finish_line at_end es buf =
    if length buf == 0 && at_end
    then returns (none, record { stream = es; linebuf = buf })
    else returns (some buf, record { stream = es; linebuf = [] })

-- while (1): the last byte read is `c`, which a read at the end of the file leaves alone.
unfoldable pub readline_loop : ℕ → ℕ → ℕ → List ByteEvent → Bytes → Outcome (Option Bytes × Reader)
readline_loop zero delim c es buf = out_of_fuel
readline_loop (suc f) delim c (failed ∷ es) buf =
    returns (none, record { stream = es; linebuf = buf })
readline_loop (suc f) delim c (byte b ∷ es) buf =
    let skip = readline_loop f delim b es buf in
    let store = readline_loop f delim b es (buf ++ b ∷ []) in
    if delim == b'\n' && b == b'\r'
    then skip
    else if b == delim
    then finish_line false es buf
    else if ltb (length buf) bufsiz
    then store
    else undefined
readline_loop (suc f) delim c [] buf =
    let skip = readline_loop f delim c [] buf in
    if delim == b'\n' && c == b'\r' then skip else finish_line true [] buf

-- The variable `c` is not initialised: it holds `garbage`.
unfoldable pub readline : ℕ → ℕ → ℕ → Reader → Outcome (Option Bytes × Reader)
unfolding readline_loop finish_line
readline fuel garbage delim r = readline_loop fuel delim garbage r.stream r.linebuf
