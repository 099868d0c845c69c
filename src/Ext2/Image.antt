-- ===== src/Ext2/Image.antt =====
-- The image that format_ext of programs/e2.c writes.
use punchcardos.Ext2.Layout.{block_size}
use punchcardos.Ext2.{Memory}
use punchcardos.Prelude.{ℕ, ◌≤◌, ◌≡◌, Bytes, some, length}

-- malloc gives a buffer of the size that it is asked for, up to a block.
abbrev pub Gives : Memory → Type 0
Gives m =
    (size : ℕ)
    → size ≤ block_size
    → (pad : Bytes) × (m.malloc size ≡ some pad) × (length pad ≡ size)
