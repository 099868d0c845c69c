-- ===== src/Xargs/Input.antt =====
-- readline of programs/xargs.c, with its static buffer.
use punchcardos.Prelude.{
  ℕ, Bool, true, false, [], ◌∷◌, ◌++◌, Bytes, Option, none, some, length, ◌==◌, if◌then◌else◌,
}
use punchcardos.Sys.Memory.{Heap, allocate}
use punchcardos.Sys.{Outcome, returns, exits, undefined}

-- BUFSIZ
abbrev pub bufsiz : ℕ
bufsiz = 8_192

-- Whether the loop of readline has found a newline, with the input that is left and `linebuf`.
abbrev pub LoopEnd : Type 0
LoopEnd = Bool × (Bytes × Bytes)

-- The input is what getchar gives up to the end of the file or an error. A `char` that holds 0xFF is
-- EOF. Nothing keeps linebuf from being written past its end.
unfoldable pub readline_loop : Bytes → Bytes → Outcome LoopEnd
readline_loop [] buf = returns (false, ([], buf))
readline_loop (c ∷ input) buf = elim (c == b'\r') [
  | true ↦ readline_loop input buf
  | false ↦ elim (c == b'\n') [
    | true ↦ returns (true, (input, buf))
    | false ↦ elim (c == 255) [
      | true ↦ returns (false, (input, buf))
      | false ↦ elim (length buf == bufsiz) [
        | true ↦ undefined
        | false ↦ readline_loop input (buf ++ c ∷ [])
      ]
    ]
  ]
]

-- What readline returns, `none` for a null pointer, with the input that is left, linebuf and the memory.
pub record Reading : Type 0 where
  pub line : Option Bytes
  pub input : Bytes
  pub linebuf : Bytes
  pub heap : Heap

unfoldable pub after_loop : Heap → LoopEnd → Reading
after_loop h (false, (input, buf)) = record { line = none; input = input; linebuf = buf; heap = h }
after_loop h (true, (input, buf)) =
    if (allocate h).0
    then record { line = some buf; input = input; linebuf = []; heap = (allocate h).1 }
    else record { line = none; input = input; linebuf = buf; heap = (allocate h).1 }

abbrev pub map_outcome {ℓ κ} : {A : Type ℓ} {B : Type κ} → (A → B) → Outcome A → Outcome B
map_outcome f (returns a) = returns (f a)
map_outcome f (exits n) = exits n
map_outcome f undefined = undefined
map_outcome f Outcome.out_of_fuel = Outcome.out_of_fuel

unfoldable pub readline : Bytes → Bytes → Heap → Outcome Reading
unfolding readline_loop after_loop
readline input buf h = map_outcome (after_loop h) (readline_loop input buf)
