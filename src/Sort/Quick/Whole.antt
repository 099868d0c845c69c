-- ===== src/Sort/Quick/Whole.antt =====
-- What `quick_sort` of programs/sort.c makes of a whole array.
use mathlib.Core.Bool.{Bool-set}
use mathlib.Core.List.{Mem, Perm, Pairwise, mem-cons_self, eq-or-mem_of_mem-cons}
use mathlib.Core.List.Perm
use mathlib.Core.List.Pairwise
use mathlib.Core.Logic.Or
use punchcardos.Prelude.{
  suc, ◌+◌, ◌≡◌, sym, ap, ◌∙◌, true, List, [], ◌∷◌, Bytes, some, length, append-nil, Bool-cases,
  inl, inr, arith,
}
use punchcardos.Sort.Compare.{CmpFn, not_positive}
use punchcardos.Sort.Compare.Laws.{IsOrder}
use punchcardos.Sort.Quick.{quick_sort}
use punchcardos.Sort.Quick.Order.{IsSorted, quick_sort-part}

-- Enough rounds on a whole array leave its entries in the order of the comparison function: no
-- index leaves the array, and the result is an arrangement of the same lines.
pub quick_sort-IsSorted :
    (compare : CmpFn) (a : List Bytes)
    → IsOrder compare
    → (sorted : List Bytes) × (quick_sort (suc (length a)) compare 0 (length a) a ≡ some sorted)
      × Perm sorted a
      × IsSorted compare sorted
quick_sort-IsSorted compare a order =
    let s = quick_sort-part compare order (suc (length a)) [] a [] (omega arith) in
    let all : 0 + length a ≡ length a = omega arith in
    (s.sorted, rw (all, append-nil a, append-nil s.sorted) at s.result, s.kept, s.ordered)

module _ (compare : CmpFn) (order : IsOrder compare) where
  self : (x : Bytes) → not_positive (compare x x) ≡ true
  self x = elim (Bool-cases (not_positive (compare x x))) [ inl h ↦ h | inr h ↦ order.total x x h ]

  pub head_below :
      (x y : Bytes) (xs : List Bytes)
      → IsSorted compare (x ∷ xs)
      → Mem y (x ∷ xs)
      → not_positive (compare x y) ≡ true
  head_below x y xs (Pairwise.cons above s) m =
      Or.elim (Bool-set _ _) (eq-or-mem_of_mem-cons m) (λ e. rw e (self x)) (above y)

  -- Two arrangements of the same lines that are both in order are one.
  IsSorted-unique :
      (xs ys : List Bytes) → IsSorted compare xs → IsSorted compare ys → Perm xs ys → xs ≡ ys
  IsSorted-unique [] ys sx sy p = Perm.nil-eq p
  IsSorted-unique (x ∷ xs) [] sx sy p = Perm.eq-nil p
  IsSorted-unique (x ∷ xs) (y ∷ ys) sx sy p =
      let over = head_below x y xs sx ((Perm.mem_iff p).1 mem-cons_self) in
      let under = head_below y x ys sy ((Perm.mem_iff p).0 mem-cons_self) in
      let e : x ≡ y = order.antisym x y over under in
      let rest : Perm xs ys = Perm.cons_inv (rw (sym e) at p) in
      rw e (ap (◌∷◌ y) (IsSorted-unique xs ys (Pairwise.of_cons sx) (Pairwise.of_cons sy) rest))

-- The result depends on the lines alone and not on their places in the array: two arrays with the
-- same lines are sorted to the same.
pub quick_sort-perm :
    (compare : CmpFn) (a b : List Bytes)
    → IsOrder compare
    → Perm a b
    → quick_sort (suc (length a)) compare 0 (length a) a
      ≡ quick_sort (suc (length b)) compare 0 (length b) b
quick_sort-perm compare a b order p =
    let s = quick_sort-IsSorted compare a order in
    let t = quick_sort-IsSorted compare b order in
    let same =
      IsSorted-unique compare order s.0 t.0 s.3 t.3
        (Perm.trans s.2 (Perm.trans p (Perm.symm t.2))) in
    s.1 ∙ ap some same ∙ sym t.1
