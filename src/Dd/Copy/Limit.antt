-- ===== src/Dd/Copy/Limit.antt =====
-- programs/dd.c: the count of blocks.
use punchcardos.Dd.Copy.{
  Records, no_records, count_in, count_out, Copied, write_block, wants_more, rounds, after_block,
  copy_loop,
}
use punchcardos.Prelude.{
  ℕ, zero, suc, ◌+◌, ◌≡◌, refl, true, false, Bool, Option, none, some, Bytes, List, [], ◌∷◌, drop,
  length, take, ltb, lt→ltb, lt→ltb_false, Bool-cases, inl, inr, arith,
}
use punchcardos.Sys.{ReadEvent, got, failed, WriteEvent, accept, interrupt, refuse, Output, write}

-- The blocks that have been read.
abbrev pub blocks_in : Records → ℕ
blocks_in r = r.in_full + r.in_partial

count_in-blocks_in :
    (block n : ℕ) (r : Records) → blocks_in (count_in block n r) ≡ suc (blocks_in r)
count_in-blocks_in block n r = elim (Bool-cases (ltb n block)) [
  | inl e ↦ rw e (omega arith)
  | inr e ↦ rw e (omega arith)
]

-- Writing a block leaves that count alone.
written_in : ℕ → Option (Bool × (Records × Output)) → ℕ
written_in d none = d
written_in d (some (ok, (r, o))) = blocks_in r

write_block-written_in :
    (block : ℕ) (bs w : Bytes) (es : List WriteEvent) (r : Records) (fuel : ℕ)
    → written_in (blocks_in r) (write_block fuel block bs r (record { written = w; events = es }))
      ≡ blocks_in r
unfolding write_block write written_in
write_block-written_in block [] w es r fuel = refl
write_block-written_in block (b ∷ bs) w es r zero = refl
write_block-written_in block (b ∷ bs) w [] r (suc fuel) =
    write_block-written_in block (drop (length (b ∷ bs)) (b ∷ bs)) _ []
      (count_out block (length (b ∷ bs)) r) fuel
write_block-written_in block (b ∷ bs) w (interrupt ∷ es) r (suc fuel) = refl
write_block-written_in block (b ∷ bs) w (refuse ∷ es) r (suc fuel) = refl
write_block-written_in block (b ∷ bs) w (accept k ∷ es) r (suc fuel) =
    write_block-written_in block (drop (length (take k (b ∷ bs))) (b ∷ bs)) _ es
      (count_out block (length (take k (b ∷ bs))) r) fuel

-- Two ways of going on that agree for the count of a block agree behind the block.
after_block-agrees :
    (d : ℕ) (c : Option (Bool × (Records × Output))) (f g : Records → Output → Option Copied)
    → written_in d c ≡ d
    → ((r : Records) (o : Output) → blocks_in r ≡ d → f r o ≡ g r o)
    → after_block c f ≡ after_block c g
unfolding after_block written_in
after_block-agrees d none f g h agree = refl
after_block-agrees d (some (false, (r, o))) f g h agree = refl
after_block-agrees d (some (true, (r, o))) f g h agree = agree r o h

copy_loop-from :
    (block n k : ℕ) (es : List ReadEvent) (r : Records) (o : Output)
    → blocks_in r + k ≡ n
    → copy_loop block (some n) es r o ≡ copy_loop block none (take k es) r o
unfolding copy_loop wants_more
copy_loop-from block n zero [] r o h = refl
copy_loop-from block n (suc k) [] r o h = refl
copy_loop-from block n zero (failed ∷ es) r o h = refl
copy_loop-from block n (suc k) (failed ∷ es) r o h = refl
copy_loop-from block n zero (got [] ∷ es) r o h = refl
copy_loop-from block n (suc k) (got [] ∷ es) r o h = refl
copy_loop-from block n zero (got (b ∷ bs) ∷ es) r o h =
    let enough : ltb (blocks_in r) n ≡ false = lt→ltb_false (blocks_in r) n (omega arith) in
    rw (enough, copy_loop) refl
copy_loop-from block n (suc k) (got (b ∷ bs) ∷ es) r o h =
    let wanted : ltb (blocks_in r) n ≡ true = lt→ltb (blocks_in r) n (omega arith) in
    let r' : Records = count_in block (length (b ∷ bs)) r in
    let counted = count_in-blocks_in block (length (b ∷ bs)) r in
    rw (wanted, copy_loop)
      (after_block-agrees (blocks_in r') (write_block (rounds o.events) block (b ∷ bs) r' o)
        (λ r'' o''. copy_loop block (some n) es r'' o'')
        (λ r'' o''. copy_loop block none (take k es) r'' o'')
        (write_block-written_in block (b ∷ bs) o.written o.events r' (rounds o.events))
        (λ r'' o'' same. copy_loop-from block n k es r'' o'' (omega (arith, same, counted))))

-- With a count of `n` the copy is that of the first `n` reads without a count: what is written, the counts
-- and the outcome are the same, whatever the reads and the writes give, and no read behind the first
-- `n` has a part in it.
pub copy_loop-limited :
    (block n : ℕ) (es : List ReadEvent) (o : Output)
    → copy_loop block (some n) es no_records o ≡ copy_loop block none (take n es) no_records o
copy_loop-limited block n es o = copy_loop-from block n n es no_records o (omega arith)
