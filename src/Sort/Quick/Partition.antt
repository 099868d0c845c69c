-- ===== src/Sort/Quick/Partition.antt =====
-- What `partition` of programs/sort.c does with a part of an array.
use mathlib.Core.List.{Perm}
use mathlib.Core.List.Perm
use punchcardos.Prelude.Maybe.{◌>>=◌}
use punchcardos.Prelude.{
  ℕ, ◌+◌, ◌-◌, ◌≡◌, refl, sym, ◌∙◌, true, false, List, [], ◌∷◌, ◌++◌, Bytes, Option, some, length,
  get_elem?, append_assoc, length-append, arith,
}
use punchcardos.Sort.Array.{swap, swap-rotate, rotate, length-perm}
use punchcardos.Sort.Compare.{CmpFn}
use punchcardos.Sort.Quick.Loop.{
  AllTest, AllTest-nil, AllTest-perm, Splits, partition_loop-Splits, get_elem?-after, rotate-perm,
}
use punchcardos.Sort.Quick.{partition, partition_loop}

-- The parts that `partition` leaves on the two sides of the last entry.
pub record Parts (compare : CmpFn) (x : Bytes) (run : Option (List Bytes × ℕ))
    (front entries t : List Bytes) : Type 0 where
  pub lows : List Bytes
  pub highs : List Bytes
  pub result : run ≡ some (front ++ (lows ++ x ∷ (highs ++ t)), length front + length lows)
  pub kept : Perm (lows ++ highs) entries
  pub low : AllTest compare x true lows
  pub high : AllTest compare x false highs

module _ (compare : CmpFn) (x : Bytes) where
  partition-of_steps :
      (p r q : ℕ) (a b c : List Bytes)
      → get_elem? a r ≡ some x
      → partition_loop compare x (r - p) p p a ≡ some (b, q)
      → swap q r b ≡ some c
      → partition compare p r a ≡ some (c, q)
  unfolding partition
  partition-of_steps p r q a b c there split swapped = rw (there, ◌>>=◌) (rw (split, swapped) refl)

  from_loop :
      (front entries t : List Bytes)
      → Splits compare x
          (partition_loop compare x
            (length entries)
            (length front)
            (length front)
            (front ++ (entries ++ x ∷ t)))
          front
          entries
          (x ∷ t)
  from_loop front entries t =
      let n : length front + 0 ≡ length front = omega arith in
      rw n at
        (partition_loop-Splits compare x front [] entries (x ∷ t) (AllTest-nil compare x false))

  last_swap :
      (front lows highs t : List Bytes) (n : ℕ)
      → length lows + length highs ≡ n
      → swap (length front + length lows) (length front + n) (front ++ (lows ++ (highs ++ x ∷ t)))
        ≡ some (front ++ (lows ++ x ∷ (rotate highs ++ t)))
  last_swap front lows highs t n h =
      let whole = append_assoc front lows (highs ++ x ∷ t) in
      let after = append_assoc front lows (x ∷ (rotate highs ++ t)) in
      let place : length (front ++ lows) + length highs ≡ length front + n =
        omega (arith, length-append front lows) in
      rw (whole, after, place, length-append front lows) at (swap-rotate (front ++ lows) highs t x)

  pub partition-Parts :
      (front entries t : List Bytes)
      → Parts compare x
          (partition compare
            (length front)
            (length front + length entries)
            (front ++ (entries ++ x ∷ t)))
          front
          entries
          t
  partition-Parts front entries t =
      let s = from_loop front entries t in
      let kept : Perm (s.lows ++ rotate s.highs) entries =
        Perm.trans (Perm.append_left s.lows (rotate-perm s.highs)) s.kept in
      let sizes : length s.lows + length s.highs ≡ length entries =
        sym (length-append s.lows s.highs) ∙ length-perm s.kept in
      let rounds : length front + length entries - length front ≡ length entries = omega arith in
      record {
        lows = s.lows;
        highs = rotate s.highs;
        result =
            partition-of_steps _ _ _ _ _ _ (get_elem?-after front entries t x) (rw rounds s.result)
              (last_swap front s.lows s.highs t _ sizes);
        kept = kept;
        low = s.low;
        high = AllTest-perm compare x false _ _ (rotate-perm s.highs) s.high;
      }
