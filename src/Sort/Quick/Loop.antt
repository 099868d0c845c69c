-- ===== src/Sort/Quick/Loop.antt =====
-- The loop of `partition` in programs/sort.c, on an array that is split into its parts.
use mathlib.Core.Bool.{Bool-set}
use mathlib.Core.List.{Mem, Perm, not-mem-nil, perm_middle, forall_mem-cons}
use mathlib.Core.List.Perm
use punchcardos.Prelude.Maybe.{◌>>=◌}
use punchcardos.Prelude.{
  ℕ, suc, ◌+◌, ◌≡◌, refl, Bool, true, false, List, [], ◌∷◌, ◌++◌, Bytes, Option, some, length,
  get_elem?, append_assoc, append-nil, length-append, Bool-cases, inl, inr, arith,
}
use punchcardos.Sort.Array.{swap, swap-rotate, rotate, get_elem?-middle}
use punchcardos.Sort.Compare.{CmpFn, not_positive}
use punchcardos.Sort.Quick.{partition_loop}

pub rotate-perm {ℓ} : {A : Type ℓ} (xs : List A) → Perm (rotate xs) xs
rotate-perm [] = Perm.nil
rotate-perm (x ∷ xs) = rw (append-nil xs) at (perm_middle {a = x} xs [])

length-rotate {ℓ} : {A : Type ℓ} (xs : List A) → length (rotate xs) ≡ length xs
length-rotate [] = refl
length-rotate (x ∷ xs) = omega (arith, length-append xs (x ∷ []))

pub get_elem?-after {ℓ} :
    {A : Type ℓ} (u v t : List A) (y : A)
    → get_elem? (u ++ (v ++ y ∷ t)) (length u + length v) ≡ some y
get_elem?-after u v t y =
    rw (append_assoc u v (y ∷ t), length-append u v) at (get_elem?-middle (u ++ v) t y)

-- The test of `partition` has this answer for every entry.
abbrev pub AllTest : CmpFn → Bytes → Bool → List Bytes → Type 0
AllTest compare x b ys = (y : Bytes) → Mem y ys → not_positive (compare y x) ≡ b

pub AllTest-nil : (compare : CmpFn) (x : Bytes) (b : Bool) → AllTest compare x b []
AllTest-nil compare x b y m = absurd (not-mem-nil m)

pub AllTest-cons :
    (compare : CmpFn) (x : Bytes) (b : Bool) (y : Bytes) (ys : List Bytes)
    → not_positive (compare y x) ≡ b
    → AllTest compare x b ys
    → AllTest compare x b (y ∷ ys)
AllTest-cons compare x b y ys h all = (forall_mem-cons (λ z. Bool-set _ _)).1 (h, all)

pub AllTest-perm :
    (compare : CmpFn) (x : Bytes) (b : Bool) (ys zs : List Bytes)
    → Perm ys zs
    → AllTest compare x b zs
    → AllTest compare x b ys
AllTest-perm compare x b ys zs p all y m = all y ((Perm.mem_iff p).0 m)

-- What the loop leaves of the entries that it was given, with the parts before and behind them.
pub record Splits (compare : CmpFn) (x : Bytes) (run : Option (List Bytes × ℕ))
    (front entries t : List Bytes) : Type 0 where
  pub lows : List Bytes
  pub highs : List Bytes
  pub result : run ≡ some (front ++ (lows ++ (highs ++ t)), length front + length lows)
  pub kept : Perm (lows ++ highs) entries
  pub low : AllTest compare x true lows
  pub high : AllTest compare x false highs

module _ (compare : CmpFn) (x : Bytes) where
  no_rounds : (next j : ℕ) (a : List Bytes) → partition_loop compare x 0 next j a ≡ some (a, next)
  unfolding partition_loop
  no_rounds next j a = refl

  round_lower :
      (rounds next j : ℕ) (a b : List Bytes) (y : Bytes)
      → get_elem? a j ≡ some y
      → not_positive (compare y x) ≡ true
      → swap next j a ≡ some b
      → partition_loop compare x (suc rounds) next j a
        ≡ partition_loop compare x rounds (suc next) (suc j) b
  unfolding partition_loop
  round_lower rounds next j a b y there h swapped = rw (there, ◌>>=◌) (rw h (rw swapped refl))

  round_higher :
      (rounds next j : ℕ) (a : List Bytes) (y : Bytes)
      → get_elem? a j ≡ some y
      → not_positive (compare y x) ≡ false
      → partition_loop compare x (suc rounds) next j a
        ≡ partition_loop compare x rounds next (suc j) a
  unfolding partition_loop
  round_higher rounds next j a y there h = rw (there, ◌>>=◌) (rw h refl)

  -- A round on an entry that goes to the lower part, and one on an entry that goes to the higher.
  lower_round :
      (front highs rest t : List Bytes) (y : Bytes)
      → not_positive (compare y x) ≡ true
      → partition_loop compare x
          (suc (length rest))
          (length front)
          (length front + length highs)
          (front ++ (highs ++ y ∷ (rest ++ t)))
        ≡ partition_loop compare x
            (length rest)
            (length (front ++ y ∷ []))
            (length (front ++ y ∷ []) + length (rotate highs))
            ((front ++ y ∷ []) ++ (rotate highs ++ (rest ++ t)))
  lower_round front highs rest t y h =
      let there = get_elem?-after front highs (rest ++ t) y in
      let swapped = swap-rotate front highs (rest ++ t) y in
      let whole = append_assoc front (y ∷ []) (rotate highs ++ (rest ++ t)) in
      let n : length (front ++ y ∷ []) ≡ suc (length front) =
        omega (arith, length-append front (y ∷ [])) in
      let m : suc (length front) + length highs ≡ suc (length front + length highs) = omega arith in
      rw (whole, n, length-rotate highs, m) (round_lower (length rest) _ _ _ _ y there h swapped)

  higher_round :
      (front highs rest t : List Bytes) (y : Bytes)
      → not_positive (compare y x) ≡ false
      → partition_loop compare x
          (suc (length rest))
          (length front)
          (length front + length highs)
          (front ++ (highs ++ y ∷ (rest ++ t)))
        ≡ partition_loop compare x
            (length rest)
            (length front)
            (length front + length (highs ++ y ∷ []))
            (front ++ ((highs ++ y ∷ []) ++ (rest ++ t)))
  higher_round front highs rest t y h =
      let there = get_elem?-after front highs (rest ++ t) y in
      let whole = append_assoc highs (y ∷ []) (rest ++ t) in
      let n : length front + length (highs ++ y ∷ []) ≡ suc (length front + length highs) =
        omega (arith, length-append highs (y ∷ [])) in
      rw (whole, n) (round_higher (length rest) _ _ _ y there h)

  AllTest-snoc :
      (b : Bool) (y : Bytes) (ys : List Bytes)
      → not_positive (compare y x) ≡ b
      → AllTest compare x b ys
      → AllTest compare x b (ys ++ y ∷ [])
  AllTest-snoc b y ys h all =
      let moved = rw (append-nil ys) at (perm_middle {a = y} ys []) in
      AllTest-perm compare x b _ _ moved (AllTest-cons compare x b y ys h all)

  -- The lower part, moved by one: the entry belongs to it and no longer to the front.
  lower_round-Splits :
      (run : Option (List Bytes × ℕ)) (front highs rest t : List Bytes) (y : Bytes)
      → not_positive (compare y x) ≡ true
      → Splits compare x run (front ++ y ∷ []) (rotate highs ++ rest) t
      → Splits compare x run front (highs ++ y ∷ rest) t
  lower_round-Splits run front highs rest t y h s = record {
    lows = y ∷ s.lows;
    highs = s.highs;
    result =
        (let whole = append_assoc front (y ∷ []) (s.lows ++ (s.highs ++ t)) in
          let n : length (front ++ y ∷ []) + length s.lows ≡ length front + suc (length s.lows) =
            omega (arith, length-append front (y ∷ [])) in
          rw (whole, n) at s.result);
    kept =
        (let turned = Perm.append_right rest (rotate-perm highs) in
          Perm.trans (Perm.cons y (Perm.trans s.kept turned))
            (Perm.symm (perm_middle {a = y} highs rest)));
    low = AllTest-cons compare x true y s.lows h s.low;
    high = s.high;
  }

  -- The loop keeps the entries and splits them by the test.
  pub partition_loop-Splits :
      (front highs rest t : List Bytes)
      → AllTest compare x false highs
      → Splits compare x
          (partition_loop compare x
            (length rest)
            (length front)
            (length front + length highs)
            (front ++ (highs ++ (rest ++ t))))
          front
          (highs ++ rest)
          t
  partition_loop-Splits front highs [] t all = record {
    lows = [];
    highs = highs;
    result =
        (let n : length front + 0 ≡ length front = omega arith in
          rw n (no_rounds (length front) _ _));
    kept = rw (append-nil highs) (Perm.refl highs);
    low = AllTest-nil compare x true;
    high = all;
  }
  partition_loop-Splits front highs (y ∷ rest) t all =
      elim (Bool-cases (not_positive (compare y x))) [
        | inl h ↦
            let turned = AllTest-perm compare x false _ _ (rotate-perm highs) all in
            rw (lower_round front highs rest t y h) (
              lower_round-Splits _ front highs rest t y h
                (partition_loop-Splits (front ++ y ∷ []) (rotate highs) rest t turned))
        | inr h ↦ rw (higher_round front highs rest t y h) (
            rw (append_assoc highs (y ∷ []) rest) at (
              partition_loop-Splits front (highs ++ y ∷ []) rest t
                (AllTest-snoc false y highs h all)))
      ]
