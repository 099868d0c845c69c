-- ===== src/Hexdump.antt =====
-- programs/hexdump.c: shows the bytes of a file in hexadecimal digits.
mod Samples
pub mod Line
pub mod Back
pub mod Dump
pub mod Args
use punchcardos.Prelude.{
  ℕ, zero, suc, ◌+◌, ◌-◌, ◌*◌, ◌/◌, ◌%◌, ◌^◌, Bool, true, false, ◌&&◌, List, [], ◌∷◌, ◌++◌, Bytes,
  Option, none, some, length, ltb, leb, ◌==◌, if◌then◌else◌, codes,
}
use punchcardos.Sys.{
  ReadEvent, got, failed, Output, Written, write, Outcome, returns, undefined, exit_success,
  exit_failure,
}

abbrev pub to_hex_char : ℕ → ℕ
to_hex_char byte = if ltb byte 10 then byte + b'0' else byte - 10 + b'A'

-- `(offset & 0xF0000000) >> 28` and so on: the four bits above a power of two.
abbrev pub nibble : ℕ → ℕ → ℕ
nibble offset unit = offset / unit % 16

-- The eight digits of a `uint32_t`, and a space.
abbrev pub offset_to_hex : ℕ → Bytes
offset_to_hex offset =
    to_hex_char (nibble offset 0x10000000)
    ∷ to_hex_char (nibble offset 0x1000000)
    ∷ to_hex_char (nibble offset 0x100000)
    ∷ to_hex_char (nibble offset 0x10000)
    ∷ to_hex_char (nibble offset 0x1000)
    ∷ to_hex_char (nibble offset 0x100)
    ∷ to_hex_char (nibble offset 0x10)
    ∷ to_hex_char (nibble offset 1)
    ∷ b' '
    ∷ []

-- `isprint` in the C locale.
abbrev pub is_print : ℕ → Bool
is_print c = leb 0x20 c && leb c 0x7E

unfoldable pub shown : Bytes → Bytes
shown [] = []
shown (c ∷ bytes) = (if is_print c then c else b'.') ∷ shown bytes

abbrev pub print_ascii_column : Bytes → Bytes
print_ascii_column bytes = b'|' ∷ (shown bytes ++ b'|' ∷ [])

-- The two digits of each byte, and a space behind them.
unfoldable pub hex_bytes : Bytes → Bytes
hex_bytes [] = []
hex_bytes (c ∷ bytes) = to_hex_char (c / 16) ∷ to_hex_char (c % 16) ∷ b' ' ∷ hex_bytes bytes

unfoldable pub spaces : ℕ → Bytes
spaces zero = []
spaces (suc n) = b' ' ∷ spaces n

-- while (b <= 60), where `b` is the number of bytes in `buf`.
unfoldable pub padded : Bytes → Bytes
unfolding spaces
padded buf = buf ++ spaces (61 - length buf)

-- The bytes that print_hexdump_line puts into `buf`. The offset is cast to 32 bits.
unfoldable pub hexdump_line : Bytes → ℕ → Bytes
unfolding padded shown hex_bytes
hexdump_line bytes offset =
    padded (b'0' ∷ b'x' ∷ (offset_to_hex (offset % 2 ^ 32) ++ hex_bytes bytes))
    ++ (print_ascii_column bytes ++ b'\n' ∷ [])

-- The result of the write is not looked at.
abbrev pub print_hexdump_line : Bytes → ℕ → Output → Output
print_hexdump_line bytes offset o = (write (hexdump_line bytes offset) o).1

-- LINE_SIZE
abbrev pub line_size : ℕ
line_size = 16

-- The variables of hexdump that the loop changes.
pub record State : Type 0 where
  pub line_buf : Bytes
  pub bytes_written : ℕ
  pub out : Output

-- The body of the inner loop.
step : ℕ → ℕ → State → State
step start c st =
    let full = st.line_buf ++ c ∷ [] in
    let n = st.bytes_written + 1 in
    if length full == line_size
    then record {
      line_buf = [];
      bytes_written = n;
      out = print_hexdump_line full (start + n) st.out;
    }
    else record { line_buf = full; bytes_written = n; out = st.out }

-- for (int i = 0; i < bytes_read && (bytes_written < numbytes); i++)
unfoldable pub bytes_loop : ℕ → ℕ → Bytes → State → State
unfolding step
bytes_loop start numbytes [] st = st
bytes_loop start numbytes (c ∷ bytes) st = elim (ltb st.bytes_written numbytes) [
  | true ↦ bytes_loop start numbytes bytes (step start c st)
  | false ↦ st
]

-- The reads go on to the end of the file whatever `numbytes` is. The second part is whether the last
-- read failed.
unfoldable pub read_loop : ℕ → ℕ → List ReadEvent → State → State × Bool
unfolding bytes_loop
read_loop start numbytes [] st = (st, false)
read_loop start numbytes (failed ∷ es) st = (st, true)
read_loop start numbytes (got [] ∷ es) st = (st, false)
read_loop start numbytes (got (c ∷ bytes) ∷ es) st =
    read_loop start numbytes es (bytes_loop start numbytes (c ∷ bytes) st)

-- Behind the loop.
last_line : ℕ → State × Bool → ℕ × Output
last_line start (st, true) = (exit_failure, st.out)
last_line start (st, false) =
    (exit_success, print_hexdump_line st.line_buf (start + st.bytes_written) st.out)

sought : ℕ → ℕ → Option (List ReadEvent) → Output → ℕ × Output
unfolding read_loop last_line
sought start numbytes none o = (exit_failure, o)
sought start numbytes (some es) o =
    last_line start
      (read_loop start numbytes es (record { line_buf = []; bytes_written = 0; out = o }))

-- A file open for reading: what there is to read behind an offset, if it can be sought.
abbrev pub Input : Type 0
Input = ℕ → Option (List ReadEvent)

unfoldable pub hexdump : Input → Output → ℕ → ℕ → ℕ × Output
unfolding sought
hexdump infile o start numbytes = sought start numbytes (infile start) o
