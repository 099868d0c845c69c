-- ===== src/Wc/Counts.antt =====
-- programs/wc.c: what the loop of `wc` counts, whatever the sizes of the reads.
use punchcardos.Prelude.{
  ℕ, suc, ◌+◌, ◌≡◌, refl, ◌∙◌, sym, ap, true, some, Bytes, List, [], ◌∷◌, ◌++◌, if◌then◌else◌,
  length, length-append, ◌<◌, lt→ltb, arith, Bool-cases, inl, inr,
}
use punchcardos.Sys.{ReadEvent, got, open_output, write}
use punchcardos.Timeconst.Decimal.{itoa}
use punchcardos.Wc.{CountType, counts, count_chunk, wc_loop, count_line, print, report}

-- The contents of a file, in the pieces in which reads give it: no piece is empty.
pub data Pieces : Bytes → List ReadEvent → Type 0 where
  no_piece : Pieces [] []
  piece :
      (b : ℕ) (bs rest : Bytes) (es : List ReadEvent)
      → Pieces rest es
      → Pieces ((b ∷ bs) ++ rest) (got (b ∷ bs) ∷ es)

-- How many bytes of a text the test of the type counts.
unfoldable pub total : CountType → Bytes → ℕ
total type [] = 0
total type (b ∷ bs) = if counts type b then suc (total type bs) else total type bs

count_chunk-append :
    (type : CountType) (xs ys : Bytes) (n : ℕ)
    → count_chunk type (xs ++ ys) n ≡ count_chunk type ys (count_chunk type xs n)
unfolding count_chunk
count_chunk-append type [] ys n = refl
count_chunk-append type (x ∷ xs) ys n =
    count_chunk-append type xs ys (if counts type x then n + 1 else n)

count_chunk-total :
    (type : CountType) (bs : Bytes) (n : ℕ) → count_chunk type bs n ≡ n + total type bs
unfolding count_chunk total
count_chunk-total type [] n = omega arith
count_chunk-total type (b ∷ bs) n = elim (Bool-cases (counts type b)) [
  | inl e ↦ rw (e, count_chunk-total type bs (n + 1)) (omega arith)
  | inr e ↦ rw (e, count_chunk-total type bs n) refl
]

wc_loop-from :
    (type : CountType) (text : Bytes) (es : List ReadEvent) (n : ℕ)
    → Pieces text es
    → wc_loop type es n ≡ some (count_chunk type text n)
unfolding wc_loop
wc_loop-from type _ _ n no_piece = refl
wc_loop-from type _ _ n (piece b bs rest es p) =
    wc_loop-from type rest es (count_chunk type (b ∷ bs) n) p
    ∙ ap some (sym (count_chunk-append type (b ∷ bs) rest n))

-- The loop returns the count of the whole text, however the reads cut it in pieces.
pub wc_loop-total :
    (type : CountType) (text : Bytes) (es : List ReadEvent)
    → Pieces text es
    → wc_loop type es 0 ≡ some (total type text)
wc_loop-total type text es p =
    let n : count_chunk type text 0 ≡ total type text =
      count_chunk-total type text 0 ∙ omega arith in
    wc_loop-from type text es 0 p ∙ ap some n

pub report-shown :
    (n : ℕ) (name w : Bytes)
    → report (some n) name true (open_output w) ≡ (some n, open_output (w ++ count_line n name))
unfolding report print write
report-shown n name w =
    let line : Bytes = count_line n name in
    let some_bytes : 0 < length line =
      omega (arith, length-append (itoa n) (b' ' ∷ (name ++ b'\n' ∷ []))) in
    rw (lt→ltb 0 (length line) some_bytes) refl
