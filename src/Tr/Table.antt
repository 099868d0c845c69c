-- ===== src/Tr/Table.antt =====
-- programs/tr.c: what the table of `tr` holds, and what the loop makes of the input.
use punchcardos.Prelude.{
  ℕ, zero, suc, ◌≡◌, refl, ◌∙◌, sym, ap, Bool, true, false, not, ◌&&◌, ◌||◌, Bytes, List, [], ◌∷◌,
  ◌++◌, ◌==◌, length, drop, deref, drop_nil, append-nil, append_assoc, take, ◌<◌, length-append,
  length-take, arith, Bool-cases, ==_refl, inl, inr,
}
use punchcardos.Sys.{ByteEvent, byte, failed, open_output, write, exit_success}
use punchcardos.Tr.{Map, assign, fill, table, tr_loop, tr}

unfoldable pub occurs : ℕ → Bytes → Bool
occurs x [] = false
occurs x (c ∷ s) = x == c || occurs x s

-- The bytes that `getchar` gives before it returns `EOF`.
unfoldable pub read_bytes : List ByteEvent → Bytes
read_bytes [] = []
read_bytes (failed ∷ es) = []
read_bytes (byte c ∷ es) = c ∷ read_bytes es

unfoldable pub translated : Map → Bytes → Bytes
translated map [] = []
translated map (c ∷ s) = map c ∷ translated map s

tr_loop-translated :
    (map : Map) (es : List ByteEvent) (w : Bytes)
    → tr_loop map es (open_output w)
      ≡ (exit_success, open_output (w ++ translated map (read_bytes es)))
unfolding tr_loop write translated read_bytes
tr_loop-translated map [] w = rw append-nil
tr_loop-translated map (failed ∷ es) w = rw append-nil
tr_loop-translated map (byte c ∷ es) w =
    rw (tr_loop-translated map es (w ++ map c ∷ []), append_assoc)

fill-other :
    (x : ℕ) (set1 set2 : Bytes) (map : Map) → occurs x set1 ≡ false → fill set1 set2 map x ≡ map x
unfolding fill occurs assign
fill-other x [] set2 map h = refl
fill-other x (c ∷ set1) [] map h = ground (arith, fill-other x set1 [] (assign c 0 map))
fill-other x (c ∷ set1) (d ∷ set2) map h = ground (arith, fill-other x set1 set2 (assign c d map))

fill-last :
    (c : ℕ) (p q set2 : Bytes) (map : Map)
    → occurs c q ≡ false
    → fill (p ++ c ∷ q) set2 map c ≡ deref (drop (length p) set2)
unfolding fill assign
fill-last c [] q [] map h = fill-other c q [] (assign c 0 map) h ∙ rw (==_refl c)
fill-last c [] q (d ∷ set2) map h = fill-other c q set2 (assign c d map) h ∙ rw (==_refl c)
fill-last c (x ∷ p) q [] map h = fill-last c p q [] (assign x 0 map) h ∙ rw drop_nil
fill-last c (x ∷ p) q (d ∷ set2) map h = fill-last c p q set2 (assign x d map) h

-- A byte that is not in the first set stays as it is.
pub table-other : (x : ℕ) (set1 set2 : Bytes) → occurs x set1 ≡ false → table set1 set2 x ≡ x
unfolding table
table-other x set1 set2 h = fill-other x set1 set2 (λ y. y) h

-- A byte whose last place in the first set has `p` before it becomes the byte at that place of the
-- second set, or NUL where the second set is shorter.
pub table-last :
    (c : ℕ) (p q set2 : Bytes)
    → occurs c q ≡ false
    → table (p ++ c ∷ q) set2 c ≡ deref (drop (length p) set2)
unfolding table
table-last c p q set2 h = fill-last c p q set2 (λ y. y) h

-- The bytes of a set are all different.
pub data IsSimple : Bytes → Type 0 where
  simple_nil : IsSimple []
  simple_cons : (c : ℕ) (s : Bytes) → occurs c s ≡ false → IsSimple s → IsSimple (c ∷ s)

-- A byte that stands in a set, with what stands before it and behind it.
record Place (x : ℕ) (s : Bytes) : Type 0 where
  before : Bytes
  behind : Bytes
  split : s ≡ before ++ x ∷ behind
  is_last : occurs x behind ≡ false

place : (x : ℕ) (s : Bytes) → occurs x s ≡ true → Place x s
unfolding occurs
place x [] h = ground arith
place x (c ∷ s) h = elim (Bool-cases (occurs x s)) [
  | inl o ↦
      let p = place x s o in
      record {
        before = c ∷ p.before;
        behind = p.behind;
        split = ap (λ r. c ∷ r) p.split;
        is_last = p.is_last;
      }
  | inr o ↦
      let e : x ≡ c = ground arith in
      record { before = []; behind = s; split = ap (λ y. y ∷ s) (sym e); is_last = o }
]

split_at : (n : ℕ) (s : Bytes) → n < length s → s ≡ take n s ++ deref (drop n s) ∷ drop (suc n) s
split_at n [] h = absurd (omega arith)
split_at zero (c ∷ s) h = refl
split_at (suc n) (c ∷ s) h = ap (λ r. c ∷ r) (split_at n s (omega arith))

IsSimple-drop :
    (n : ℕ) (s : Bytes)
    → n < length s
    → IsSimple s
    → occurs (deref (drop n s)) (drop (suc n) s) ≡ false
IsSimple-drop n [] h i = absurd (omega arith)
IsSimple-drop zero (c ∷ s) h (simple_cons _ _ o i) = o
IsSimple-drop (suc n) (c ∷ s) h (simple_cons _ _ o i) = IsSimple-drop n s (omega arith) i

at_length : (b a : Bytes) (x : ℕ) → deref (drop (length b) (b ++ x ∷ a)) ≡ x
at_length [] a x = refl
at_length (c ∷ b) a x = at_length b a x

table-at :
    (n : ℕ) (set1 set2 : Bytes)
    → n < length set2
    → IsSimple set2
    → table set2 set1 (deref (drop n set2)) ≡ deref (drop n set1)
table-at n set1 set2 h i =
    let y : ℕ = deref (drop n set2) in
    let n' : length (take n set2) ≡ n = omega (arith, length-take n set2) in
    ap (λ s. table s set1 y) (split_at n set2 h)
    ∙ table-last y (take n set2) (drop (suc n) set2) set1 (IsSimple-drop n set2 h i)
    ∙ ap (λ k. deref (drop k set1)) n'

table-there :
    (x : ℕ) (set1 set2 : Bytes)
    → length set1 ≡ length set2
    → IsSimple set2
    → Place x set1
    → table set2 set1 (table set1 set2 x) ≡ x
table-there x set1 set2 h i p =
    let n : ℕ = length p.before in
    let short : n < length set2 =
      omega (arith, h, ap length p.split, length-append p.before (x ∷ p.behind)) in
    let there : table set1 set2 x ≡ deref (drop n set2) =
      ap (λ s. table s set2 x) p.split ∙ table-last x p.before p.behind set2 p.is_last in
    ap (table set2 set1) there
    ∙ table-at n set1 set2 short i
    ∙ ap (λ s. deref (drop n s)) p.split
    ∙ at_length p.before p.behind x

-- Translating back gives a byte again that is in the first set, or in neither.
pub table-back :
    (x : ℕ) (set1 set2 : Bytes)
    → length set1 ≡ length set2
    → IsSimple set2
    → (occurs x set1 || not (occurs x set2)) ≡ true
    → table set2 set1 (table set1 set2 x) ≡ x
table-back x set1 set2 h i s = elim (Bool-cases (occurs x set1)) [
  | inl o ↦ table-there x set1 set2 h i (place x set1 o)
  | inr o ↦ rw (table-other x set1 set2 o) (table-other x set2 set1 (ground arith))
]

-- The input of a program that reads what another has written.
unfoldable pub feed : Bytes → List ByteEvent
feed [] = []
feed (c ∷ s) = byte c ∷ feed s

read_bytes-feed : (s : Bytes) → read_bytes (feed s) ≡ s
unfolding read_bytes feed
read_bytes-feed [] = refl
read_bytes-feed (c ∷ s) = ap (λ r. c ∷ r) (read_bytes-feed s)

-- No byte of the input is of the second set alone.
unfoldable pub no_clash : Bytes → Bytes → Bytes → Bool
no_clash set1 set2 [] = true
no_clash set1 set2 (c ∷ s) = (occurs c set1 || not (occurs c set2)) && no_clash set1 set2 s

translated-back :
    (set1 set2 s : Bytes)
    → length set1 ≡ length set2
    → IsSimple set2
    → no_clash set1 set2 s ≡ true
    → translated (table set2 set1) (translated (table set1 set2) s) ≡ s
unfolding translated no_clash
translated-back set1 set2 [] h i n = refl
translated-back set1 set2 (c ∷ s) h i n =
    let here : (occurs c set1 || not (occurs c set2)) ≡ true = ground arith in
    let rest : no_clash set1 set2 s ≡ true = ground arith in
    rw (table-back c set1 set2 h i here) (ap (λ r. c ∷ r) (translated-back set1 set2 s h i rest))

-- Whatever has been read before the end of the input or an error is written byte by byte through the
-- table, in order, and the program ends well.
pub tr-translated :
    (set1 set2 : Bytes) (es : List ByteEvent) (w : Bytes)
    → tr set1 set2 es (open_output w)
      ≡ (exit_success, open_output (w ++ translated (table set1 set2) (read_bytes es)))
unfolding tr
tr-translated set1 set2 es w = tr_loop-translated (table set1 set2) es w

-- With two sets of the same length, the second without repetition, `tr set2 set1` restores what
-- `tr set1 set2` made of an input in which no byte belongs to the second set alone.
pub tr-tr :
    (set1 set2 s : Bytes)
    → length set1 ≡ length set2
    → IsSimple set2
    → no_clash set1 set2 s ≡ true
    → tr set2 set1 (feed (tr set1 set2 (feed s) (open_output [])).1.written) (open_output [])
      ≡ (exit_success, open_output s)
tr-tr set1 set2 s h i n = rw (
  tr-translated set1 set2 (feed s) [],
  read_bytes-feed s,
  tr-translated set2 set1 (feed (translated (table set1 set2) s)) [],
  read_bytes-feed (translated (table set1 set2) s),
  translated-back set1 set2 s h i n,
)
