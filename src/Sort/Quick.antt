-- ===== src/Sort/Quick.antt =====
-- swap, partition and quick_sort of programs/sort.c. The index `i` of the source starts at `p - 1`,
-- which may be -1: the model has `i + 1`. The upper index `r` may be -1 too: a range is `p` and `r + 1`.
pub mod Loop
pub mod Partition
pub mod Order
pub mod Whole
use punchcardos.Prelude.Maybe.{◌>>=◌}
use punchcardos.Prelude.{
  ℕ, zero, suc, ◌-◌, List, Bytes, Option, none, some, true, false, ltb, get_elem?, if◌then◌else◌,
}
use punchcardos.Sort.Array.{swap}
use punchcardos.Sort.Compare.{CmpFn, not_positive}

-- for (j = p; j < r; j++), for the rounds that are left.
unfoldable pub partition_loop : CmpFn → Bytes → ℕ → ℕ → ℕ → List Bytes → Option (List Bytes × ℕ)
partition_loop compare x zero next j a = some (a, next)
partition_loop compare x (suc rounds) next j a = do
  y ← get_elem? a j
  elim (not_positive (compare y x)) [
    | true ↦ (do b ← swap next j a; partition_loop compare x rounds (suc next) (suc j) b)
    | false ↦ partition_loop compare x rounds next (suc j) a
  ]

unfoldable pub partition : CmpFn → ℕ → ℕ → List Bytes → Option (List Bytes × ℕ)
partition compare p r a = do
  x ← get_elem? a r
  split ← partition_loop compare x (r - p) p p a
  b ← swap split.1 r split.0
  some (b, split.1)

-- `none` when an index leaves the array or the rounds run out.
unfoldable pub quick_sort : ℕ → CmpFn → ℕ → ℕ → List Bytes → Option (List Bytes)
quick_sort zero compare p end a = none
quick_sort (suc f) compare p end a = elim (ltb (suc p) end) [
  | true ↦ (do
    split ← partition compare p (end - 1) a
    b ← quick_sort f compare p split.1 split.0
    quick_sort f compare (suc split.1) end b)
  | false ↦ some a
]
