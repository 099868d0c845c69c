-- ===== src/Sort/Compare/Laws.antt =====
-- The comparison functions of programs/sort.c are orders.
use Prim.Native.Nat.{Ordering}
use punchcardos.Prelude.{◌≡◌, refl, true, false, Bytes, [], ◌∷◌, arith}
use punchcardos.Sort.Compare.{
  CmpFn, Sign, negate, not_positive, strcmp, compare_normal, compare_reverse,
}

-- What a comparison function must be for sorting by it.
pub record IsOrder (compare : CmpFn) : Type 0 where
  pub total : (a b : Bytes) → not_positive (compare a b) ≡ false → not_positive (compare b a) ≡ true
  pub trans :
      (a b c : Bytes)
      → not_positive (compare a b) ≡ true
      → not_positive (compare b c) ≡ true
      → not_positive (compare a c) ≡ true
  pub antisym :
      (a b : Bytes) → not_positive (compare a b) ≡ true → not_positive (compare b a) ≡ true → a ≡ b

strcmp_trans :
    (a b c : Bytes)
    → not_positive (strcmp a b) ≡ true
    → not_positive (strcmp b c) ≡ true
    → not_positive (strcmp a c) ≡ true
unfolding strcmp
strcmp_trans [] b [] h k = refl
strcmp_trans [] b (z ∷ c) h k = refl
strcmp_trans (x ∷ a) [] c h k = ground arith
strcmp_trans (x ∷ a) (y ∷ b) [] h k = ground arith
strcmp_trans (x ∷ a) (y ∷ b) (z ∷ c) h k = ground (arith, strcmp_trans a b c)

strcmp-flip : (a b : Bytes) → strcmp b a ≡ negate (strcmp a b)
unfolding strcmp
strcmp-flip [] [] = refl
strcmp-flip [] (y ∷ b) = refl
strcmp-flip (x ∷ a) [] = refl
strcmp-flip (x ∷ a) (y ∷ b) = ground (arith, strcmp-flip a b)

pub strcmp-eq : (a b : Bytes) → strcmp a b ≡ Ordering.eq → a ≡ b
unfolding strcmp
strcmp-eq [] [] h = refl
strcmp-eq [] (y ∷ b) h = ground arith
strcmp-eq (x ∷ a) [] h = ground arith
strcmp-eq (x ∷ a) (y ∷ b) h = ground (arith, strcmp-eq a b)

pub strcmp_self : (a : Bytes) → strcmp a a ≡ Ordering.eq
unfolding strcmp
strcmp_self [] = refl
strcmp_self (x ∷ a) = ground (arith, strcmp_self a)

negate-total : (s : Sign) → not_positive s ≡ false → not_positive (negate s) ≡ true
negate-total Ordering.lt h = ground arith
negate-total Ordering.eq h = ground arith
negate-total Ordering.gt h = refl

negate-zero : (s : Sign) → not_positive s ≡ true → not_positive (negate s) ≡ true → s ≡ Ordering.eq
negate-zero Ordering.lt h k = ground arith
negate-zero Ordering.eq h k = refl
negate-zero Ordering.gt h k = ground arith

pub compare_normal-IsOrder : IsOrder compare_normal
compare_normal-IsOrder = record {
  total = λ a b h. rw (strcmp-flip a b) (negate-total (strcmp a b) h);
  trans = strcmp_trans;
  antisym = λ a b h k. strcmp-eq a b (negate-zero (strcmp a b) h (rw (strcmp-flip a b) at k));
}

-- The reverse order is the order of the exchanged arguments.
reverse_flip :
    (a b : Bytes) → not_positive (compare_reverse a b) ≡ true → not_positive (strcmp b a) ≡ true
reverse_flip a b h = rw (strcmp-flip a b) h

pub compare_reverse-IsOrder : IsOrder compare_reverse
compare_reverse-IsOrder = record {
  total = λ a b h.
      let e = strcmp-flip a b in
      let first : not_positive (strcmp b a) ≡ false = rw e h in negate-total (strcmp b a) first;
  trans = λ a b c h k.
      let both = strcmp_trans c b a (reverse_flip b c k) (reverse_flip a b h) in
      rw (strcmp-flip a c) at both;
  antisym = λ a b h k. compare_normal-IsOrder.antisym a b (reverse_flip b a k) (reverse_flip a b h);
}
