-- ===== src/Sort/Compare.antt =====
-- The comparison functions of programs/sort.c, over the C library's `strcmp`.
pub mod Laws
use Prim.Native.Nat.{compare, Ordering}
use punchcardos.Prelude.{ℕ, Bool, true, false, Bytes, [], ◌∷◌}

-- The sign of an `int`: what the programs use of the result of a comparison.
abbrev pub Sign : Type 0
Sign = Ordering

abbrev pub negate : Sign → Sign
negate Ordering.lt = Ordering.gt
negate Ordering.eq = Ordering.eq
negate Ordering.gt = Ordering.lt

-- `<= 0`
abbrev pub not_positive : Sign → Bool
not_positive Ordering.gt = false
not_positive _ = true

-- `strcmp` compares the bytes as unsigned numbers.
unfoldable pub strcmp : Bytes → Bytes → Sign
strcmp [] [] = Ordering.eq
strcmp [] (y ∷ b) = Ordering.lt
strcmp (x ∷ a) [] = Ordering.gt
strcmp (x ∷ a) (y ∷ b) = elim (compare x y) [
  | Ordering.lt ↦ Ordering.lt
  | Ordering.eq ↦ strcmp a b
  | Ordering.gt ↦ Ordering.gt
]

abbrev pub CmpFn : Type 0
CmpFn = Bytes → Bytes → Sign

abbrev pub compare_normal : CmpFn
compare_normal = strcmp

abbrev pub compare_reverse : CmpFn
compare_reverse x y = negate (strcmp x y)
