-- ===== src/Dd/Copy.antt =====
-- programs/dd.c: what `main` does behind the parameters, on files that are open.
pub mod Whole
pub mod Limit
use punchcardos.Prelude.{
  ℕ, zero, suc, ◌+◌, Bool, true, false, Option, none, some, Bytes, List, [], ◌∷◌, ltb,
  if◌then◌else◌, length, drop,
}
use punchcardos.Sys.{ReadEvent, got, failed, WriteEvent, Output, count, eintr, error, write}

-- inFull and so on.
pub record Records : Type 0 where
  pub in_full : ℕ
  pub in_partial : ℕ
  pub out_full : ℕ
  pub out_partial : ℕ

abbrev pub no_records : Records
no_records = record { in_full = 0; in_partial = 0; out_full = 0; out_partial = 0 }

abbrev count_in : ℕ → ℕ → Records → Records
count_in block n r = record r {
  in_partial = if ltb n block then r.in_partial + 1 else r.in_partial;
  in_full = if ltb n block then r.in_full else r.in_full + 1;
}

abbrev count_out : ℕ → ℕ → Records → Records
count_out block n r = record r {
  out_partial = if ltb n block then r.out_partial + 1 else r.out_partial;
  out_full = if ltb n block then r.out_full else r.out_full + 1;
}

-- The loop that writes one block: whether it went well (`r` stays 0), the counts and the output; `none`
-- when a write that takes nothing is repeated for as long as the model goes.
unfoldable pub write_block : ℕ → ℕ → Bytes → Records → Output → Option (Bool × (Records × Output))
write_block fuel block [] r o = some (true, (r, o))
write_block zero block (b ∷ bs) r o = none
write_block (suc fuel) block (b ∷ bs) r o = elim (write (b ∷ bs) o).0 [
  | count n ↦ write_block fuel block (drop n (b ∷ bs)) (count_out block n r) (write (b ∷ bs) o).1
  | eintr ↦ some (false, (r, (write (b ∷ bs) o).1))
  | error ↦ some (false, (r, (write (b ∷ bs) o).1))
]

-- The input: what reading it gives, and what `lseek` to an offset leaves to read, if it can.
pub record Input : Type 0 where
  pub reads : List ReadEvent
  pub input_at : ℕ → Option (List ReadEvent)

-- What the code reports at `cleanup`: `r`, the counts, and what has been written.
pub record Copied : Type 0 where
  pub failed_flag : Bool
  pub records : Records
  pub out : Output

-- while (skipVal-- > 0): the reads that are left, or `none` for r = 1.
unfoldable pub skip_loop : ℕ → List ReadEvent → Option (List ReadEvent)
skip_loop zero es = some es
skip_loop (suc n) [] = none
skip_loop (suc n) (failed ∷ es) = none
skip_loop (suc n) (got [] ∷ es) = none
skip_loop (suc n) (got (b ∷ bs) ∷ es) = skip_loop n es

-- (count < 0) || (inFull + inPartial < count)
unfoldable pub wants_more : Option ℕ → Records → Bool
wants_more none r = true
wants_more (some n) r = ltb (r.in_full + r.in_partial) n

-- More rounds than writes of one block can take.
unfoldable pub rounds : List WriteEvent → ℕ
rounds [] = 1
rounds (e ∷ es) = suc (rounds es)

after_block :
    Option (Bool × (Records × Output)) → (Records → Output → Option Copied) → Option Copied
after_block none again = none
after_block (some (false, (r, o))) again =
    some (record { failed_flag = true; records = r; out = o })
after_block (some (true, (r, o))) again = again r o

-- The loop that copies. A read that fails ends it without setting `r`. A script of reads is one that
-- reads of `block` bytes can give.
unfoldable pub copy_loop : ℕ → Option ℕ → List ReadEvent → Records → Output → Option Copied
unfolding wants_more write_block rounds after_block
copy_loop block limit [] r o = some (record { failed_flag = false; records = r; out = o })
copy_loop block limit (failed ∷ es) r o =
    some (record { failed_flag = false; records = r; out = o })
copy_loop block limit (got [] ∷ es) r o =
    some (record { failed_flag = false; records = r; out = o })
copy_loop block limit (got (b ∷ bs) ∷ es) r o = elim (wants_more limit r) [
  | false ↦ some (record { failed_flag = false; records = r; out = o })
  | true ↦
      after_block
        (write_block (rounds o.events) block (b ∷ bs) (count_in block (length (b ∷ bs)) r) o)
        (λ r' o'. copy_loop block limit es r' o')
]
