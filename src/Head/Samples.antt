-- ===== src/Head/Samples.antt =====
-- Runs of programs/head.c.
use punchcardos.Head.Args.Options.{FromMemory, head-bytes}
use punchcardos.Head.Args.{World, head}
use punchcardos.Head.Cut.{Undelimited, AreUndelimited}
use punchcardos.Head.First.{read_lines-enough}
use punchcardos.Head.{read_lines}
use punchcardos.Prelude.{
  ◌≡◌, ◌+◌, ◌++◌, Bytes, length, refl, true, false, none, some, List, [], ◌∷◌, codes, str_eq,
  if◌then◌else◌, arith,
}
use punchcardos.Sys.{ReadEvent, got, open_output, returns, exit_success}
use punchcardos.Timeconst.Decimal.{itoa}

-- Two lines and a half, in three parts.
abbrev reads : List ReadEvent
reads = got (codes "a\nb") ∷ got (codes "\nc") ∷ got (codes "d") ∷ []

a-AreUndelimited : AreUndelimited b'\n' (codes "a" ∷ [])
a-AreUndelimited =
    AreUndelimited.cons (Undelimited.cons (ground arith) Undelimited.nil) AreUndelimited.nil

b-Undelimited : Undelimited b'\n' (codes "b")
b-Undelimited = Undelimited.cons (ground arith) Undelimited.nil

read_lines-enough_example :
    read_lines reads 2 false (open_output []) ≡ (exit_success, open_output (codes "a\nb\n"))
read_lines-enough_example =
    read_lines-enough false reads 2 (codes "a" ∷ []) (codes "b") (codes "cd") [] refl
      a-AreUndelimited b-Undelimited refl (ground arith)

abbrev world : World
world = record {
  open_file = λ name. if str_eq name (codes "f") then some reads else none;
  stdin = [];
  allocated = true;
  memory = λ i. 63;
  to_stdin = open_output [];
  stdout = open_output [];
}

-- The read gives three of the five bytes.
head-bytes_example :
    (rest : Bytes) × (head world (codes "-c" ∷ itoa 5 ∷ codes "f" ∷ [])
      ≡ returns (record {
        status = exit_success;
        to_stdin = open_output (codes "a\nb" ++ rest);
        stdout = open_output [];
      }))
    × (3 + length rest ≡ 5)
    × FromMemory (λ i. 63) 3 rest
unfolding str_eq
head-bytes_example =
    head-bytes world 5 b'f' [] [] reads (ground arith) (ground arith) (ground arith) refl refl
      (ground arith)
