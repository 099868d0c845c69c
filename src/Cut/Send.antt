-- ===== src/Cut/Send.antt =====
-- `safe_write` of programs/cut.c: writes until all is written, or until an error.
pub mod Complete
use punchcardos.Prelude.{ℕ, zero, suc, ◌+◌, Bytes, [], ◌∷◌, length, drop}
use punchcardos.Sys.{Output, count, eintr, error, write}

-- The return value: a count, or -1. `stuck` belongs to the model: the rounds ran out.
pub data Sent : Type 0 where
  sent : ℕ → Sent
  failed stuck : Sent

-- `rest` is what stands behind `total` bytes of the buffer.
unfoldable pub safe_write_loop : ℕ → ℕ → Bytes → Output → Sent × Output
safe_write_loop zero total rest o = (stuck, o)
safe_write_loop (suc f) total [] o = (sent total, o)
safe_write_loop (suc f) total (c ∷ rest) o = elim (write (c ∷ rest) o).0 [
  | count zero ↦ (sent total, (write (c ∷ rest) o).1)
  | count (suc n) ↦
      safe_write_loop f (total + suc n) (drop (suc n) (c ∷ rest)) (write (c ∷ rest) o).1
  | eintr ↦ safe_write_loop f total (c ∷ rest) (write (c ∷ rest) o).1
  | error ↦ (failed, (write (c ∷ rest) o).1)
]

-- Every round but the last uses up one of the output's events.
unfoldable pub safe_write : Bytes → Output → Sent × Output
unfolding safe_write_loop write
safe_write buf o = safe_write_loop (suc (suc (length o.events))) 0 buf o
