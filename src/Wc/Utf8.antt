-- ===== src/Wc/Utf8.antt =====
-- programs/wc.c: `wc -m` on text in UTF-8.
use Prim.Native.Nat.{bit_and}
use punchcardos.Prelude.{
  ℕ, zero, suc, ◌+◌, ◌/◌, ◌%◌, ◌<◌, ◌≡◌, refl, ◌∙◌, sym, ap, Bool, true, false, not, ◌&&◌, Bytes,
  List, [], ◌∷◌, ◌++◌, ◌==◌, if◌then◌else◌, ltb, length, arith, Bool-cases, inl, inr, ◌≢◌, ==_ne,
  ltb→lt,
}
use punchcardos.Prelude.{some}
use punchcardos.Sys.{ReadEvent}
use punchcardos.Wc.Counts.{total, Pieces, wc_loop-total}
use punchcardos.Wc.{chars, counts, wc_loop}

-- The low six bits of a number, as a byte of the form 10xxxxxx.
abbrev low : ℕ → ℕ
low x = 0x80 + x % 64

-- The encoding of a code point.
unfoldable pub encoded : ℕ → Bytes
encoded c =
    if ltb c 0x80
    then c ∷ []
    else if ltb c 0x800
    then (0xC0 + c / 64) ∷ low c ∷ []
    else if ltb c 0x10000
    then (0xE0 + c / 4096) ∷ low (c / 64) ∷ low c ∷ []
    else (0xF0 + c / 262144) ∷ low (c / 4096) ∷ low (c / 64) ∷ low c ∷ []

unfoldable pub text_of : List ℕ → Bytes
unfolding encoded
text_of [] = []
text_of (c ∷ cs) = encoded c ++ text_of cs

unfoldable pub are_code_points : List ℕ → Bool
are_code_points [] = true
are_code_points (c ∷ cs) = ltb c 0x110000 && are_code_points cs

same : Bool → Bool → Bool
same true b = b
same false b = not b

all_below : ℕ → (ℕ → Bool) → Bool
all_below zero p = true
all_below (suc n) p = p n && all_below n p

agrees : ℕ → Bool
unfolding same
agrees b = same (bit_and b 0xC0 == 0x80) (b / 64 == 2)

agrees_below_256 : all_below 256 agrees ≡ true
unfolding all_below agrees
agrees_below_256 = refl

all_below-at : (n : ℕ) (p : ℕ → Bool) (b : ℕ) → all_below n p ≡ true → b < n → p b ≡ true
unfolding all_below
all_below-at zero p b h l = absurd (omega arith)
all_below-at (suc n) p b h l = elim (Bool-cases (b == n)) [
  | inl e ↦ let e' : b ≡ n = ground arith in rw e' (ground arith)
  | inr e ↦ all_below-at n p b (ground arith) (ground arith)
]

same-eq : (a b : Bool) → same a b ≡ true → a ≡ b
unfolding same
same-eq true true h = refl
same-eq true false h = sym h
same-eq false true h = h
same-eq false false h = refl

-- Of the bytes, 0x80 to 0xBF alone are not counted.
pub counts-chars : (b : ℕ) → b < 256 → counts chars b ≡ not (b / 64 == 2)
unfolding counts agrees
counts-chars b h = ap not (same-eq _ _ (all_below-at 256 agrees b agrees_below_256 h))

total-lead : (b : ℕ) (r : Bytes) → b < 256 → b / 64 ≢ 2 → total chars (b ∷ r) ≡ suc (total chars r)
unfolding total
total-lead b r h l = rw (counts-chars b h, ==_ne (b / 64) 2 l) refl

total-cont : (b : ℕ) (r : Bytes) → b < 256 → b / 64 ≡ 2 → total chars (b ∷ r) ≡ total chars r
unfolding total
total-cont b r h l = rw (counts-chars b h, l) refl

-- One more byte of the form 10xxxxxx.
total-low : (x : ℕ) (r : Bytes) → total chars ((0x80 + x % 64) ∷ r) ≡ total chars r
total-low x r = total-cont (0x80 + x % 64) r (omega arith) (omega arith)

total-encoded :
    (c : ℕ) (r : Bytes) → c < 0x110000 → total chars (encoded c ++ r) ≡ suc (total chars r)
unfolding encoded
total-encoded c r h = elim (Bool-cases (ltb c 0x80)) [
  | inl p ↦ rw p (let l : c < 0x80 = ltb→lt c 0x80 p in total-lead c r (omega arith) (omega arith))
  | inr p ↦ elim (Bool-cases (ltb c 0x800)) [
    | inl q ↦
        rw (p, q)
          (let l : c < 0x800 = ltb→lt c 0x800 q in
            total-lead (0xC0 + c / 64) (low c ∷ r) (omega arith) (omega arith)
            ∙ ap suc (total-low c r))
    | inr q ↦ elim (Bool-cases (ltb c 0x10000)) [
      | inl s ↦
          rw (p, q, s)
            (let l : c < 0x10000 = ltb→lt c 0x10000 s in
              total-lead (0xE0 + c / 4096) (low (c / 64) ∷ (low c ∷ r)) (omega arith) (omega arith)
              ∙ ap suc (total-low (c / 64) (low c ∷ r) ∙ total-low c r))
      | inr s ↦
          rw (p, q, s)
            (total-lead (0xF0 + c / 262144) (low (c / 4096) ∷ (low (c / 64) ∷ (low c ∷ r)))
                (omega arith) (omega arith)
              ∙ ap suc (
                  total-low (c / 4096) (low (c / 64) ∷ (low c ∷ r))
                  ∙ total-low (c / 64) (low c ∷ r)
                  ∙ total-low c r))
    ]
  ]
]

total-text_of : (cs : List ℕ) → are_code_points cs ≡ true → total chars (text_of cs) ≡ length cs
unfolding total text_of are_code_points
total-text_of [] h = refl
total-text_of (c ∷ cs) h =
    let first : c < 0x110000 = ltb→lt c 0x110000 (ground arith) in
    let rest : are_code_points cs ≡ true = ground arith in
    total-encoded c (text_of cs) first ∙ ap suc (total-text_of cs rest)

-- For a text in UTF-8, `-m` counts its code points, also where a read ends inside of one.
pub wc_loop-chars :
    (cs : List ℕ) (es : List ReadEvent)
    → are_code_points cs ≡ true
    → Pieces (text_of cs) es
    → wc_loop chars es 0 ≡ some (length cs)
wc_loop-chars cs es h p = wc_loop-total chars (text_of cs) es p ∙ ap some (total-text_of cs h)
