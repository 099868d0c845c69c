-- ===== src/Hexdump/Samples.antt =====
-- Runs of programs/hexdump.c.
use punchcardos.Hexdump.Args.{Files}
use punchcardos.Hexdump.Back.{read_line, read_line-hexdump_line}
use punchcardos.Hexdump.Dump.{rows_text, AreRows, hexdump-rows}
use punchcardos.Hexdump.Line.{HasColumns, hexdump_line-HasColumns}
use punchcardos.Hexdump.{Input, hexdump, hexdump_line}
use punchcardos.Prelude.{◌≡◌, refl, some, none, [], ◌∷◌, ◌++◌, codes, arith}
use punchcardos.Sys.Reads.{AreBytes, NoFault}
use punchcardos.Sys.{got, open_output, exit_success}

hexdump_line-HasColumns_example : HasColumns (codes "abc") 19 (hexdump_line (codes "abc") 19)
hexdump_line-HasColumns_example = hexdump_line-HasColumns (codes "abc") 19 (ground arith)

read_line-hexdump_line_example :
    read_line (hexdump_line (codes "ab") 0x12345678) ≡ (0x12345678, codes "ab")
read_line-hexdump_line_example =
    read_line-hexdump_line (codes "ab") 0x12345678
      (AreBytes.cons (ground arith) (AreBytes.cons (ground arith) AreBytes.nil)) (ground arith)

-- A file that is read in two parts.
abbrev file : Input
file start = some (got (codes "0123456789") ∷ got (codes "abcdefgh") ∷ [])

hexdump-rows_example : hexdump file (open_output []) 32 17 ≡ (
  exit_success,
  open_output (rows_text 32 (codes "0123456789abcdef" ∷ []) ++ hexdump_line (codes "g") 49),
)
hexdump-rows_example =
    hexdump-rows file 32 17 [] _ (codes "0123456789abcdef" ∷ []) (codes "g") refl
      (NoFault.cons (NoFault.cons NoFault.nil)) refl (AreRows.cons refl AreRows.nil) (ground arith)

abbrev files : Files
files = record { input = λ name. some file; output = λ name. none }
