-- ===== src/Truncate/Whole.antt =====
-- programs/truncate.c: what becomes of a file that is there, for every operand.
use punchcardos.Prelude.{ℕ, ◌+◌, ◌*◌, ◌%◌, ◌<◌, ◌≤◌, ◌≡◌, ◌⊎◌}
use punchcardos.Truncate.{to, new_size}

-- The operands, with the sign of each.
pub data Operand : Type 0 where
  exactly longer shorter at_most at_least rounded_down rounded_up : Operand

abbrev pub sign : Operand → ℕ
sign exactly = b'='
sign longer = b'+'
sign shorter = b'-'
sign at_most = b'<'
sign at_least = b'>'
sign rounded_down = b'/'
sign rounded_up = b'%'

-- A size to round to is not 0.
abbrev pub CanRound : Operand → ℕ → Type 0
CanRound rounded_down size = 0 < size
CanRound rounded_up size = 0 < size
CanRound _ size = Unit {0}

-- `n` is the new size for an operand with a size, from the current one. A multiple of a size to round to
-- becomes that size.
abbrev pub IsNewSize : Operand → ℕ → ℕ → ℕ → Type 0
IsNewSize exactly size current n = n ≡ size
IsNewSize longer size current n = n ≡ current + size
IsNewSize shorter size current n = (n + size ≡ current) ⊎ ((current < size) × (n ≡ 0))
IsNewSize at_most size current n =
    ((current < size) × (n ≡ current)) ⊎ ((size ≤ current) × (n ≡ size))
IsNewSize at_least size current n =
    ((size < current) × (n ≡ current)) ⊎ ((current ≤ size) × (n ≡ size))
IsNewSize rounded_down size current n =
    ((current % size ≡ 0) × (n ≡ size))
    ⊎ ((k : ℕ) × ((n ≡ k * size) × ((n ≤ current) × (current < n + size))))
IsNewSize rounded_up size current n =
    ((current % size ≡ 0) × (n ≡ size))
    ⊎ ((k : ℕ) × ((n ≡ k * size) × ((current ≤ n) × (n < current + size))))

abbrev Sized : Operand → ℕ → ℕ → Type 0
Sized op size current =
    (n : ℕ) × (new_size (sign op) size current ≡ to n) × IsNewSize op size current n
