-- ===== src/Sort/Main/Repeats.antt =====
-- What print_unique of programs/sort.c and programs/uniq.c prints: each line that differs from the
-- one before it.
use Prim.Native.Nat.{Ordering}
use mathlib.Core.List.{
  Mem, Mem-prop, Pairwise, Pairwise-singleton, mem-cons_self, mem-cons_of_mem,
  eq-or-mem_of_mem-cons,
}
use mathlib.Core.List.Pairwise
use mathlib.Core.Logic.Or
use punchcardos.Prelude.{
  ◌≡◌, ◌≢◌, ◌↔◌, ◌⊎◌, refl, sym, ap, true, false, List, [], ◌∷◌, ◌++◌, Bytes, if◌then◌else◌, str_eq,
  str_eq_iff, Bool-cases, inl, inr, arith,
}
use punchcardos.Sort.Compare.Laws.{IsOrder, strcmp_self, strcmp-eq}
use punchcardos.Sort.Compare.{CmpFn, Sign, strcmp, not_positive}
use punchcardos.Sort.Main.{print_all, differs, print_changes, print_unique}
use punchcardos.Sort.Quick.Order.{IsSorted}
use punchcardos.Sort.Quick.Whole.{head_below}
use punchcardos.Sys.{returns}

-- The lines that differ from the one before, by the equality of strings.
abbrev pub changes : Bytes → List Bytes → List Bytes
changes previous [] = []
changes previous (x ∷ xs) = if str_eq x previous then changes x xs else x ∷ changes x xs

abbrev pub squeeze : List Bytes → List Bytes
squeeze [] = []
squeeze (x ∷ xs) = x ∷ changes x xs

differs-other : (x y : Bytes) → str_eq x y ≡ false → differs x y ≡ true
differs-other x y h = on_sign (strcmp x y) refl
  where
    on_sign : (s : Sign) → strcmp x y ≡ s → differs x y ≡ true
    on_sign Ordering.lt e = rw (e, differs) refl
    on_sign Ordering.gt e = rw (e, differs) refl
    on_sign Ordering.eq e =
        let same : str_eq x y ≡ true = (str_eq_iff x y).1 (strcmp-eq x y e) in ground arith

differs_same : (x y : Bytes) → x ≡ y → differs x y ≡ false
differs_same x y e = rw (e, differs) (rw (strcmp_self y) refl)

print_changes-changes :
    (previous : Bytes) (xs : List Bytes)
    → print_changes previous xs ≡ print_all (changes previous xs)
unfolding print_changes print_all
print_changes-changes previous [] = refl
print_changes-changes previous (x ∷ xs) = elim (Bool-cases (str_eq x previous)) [
  | inl h ↦
      rw (differs_same x previous ((str_eq_iff x previous).0 h), h) (print_changes-changes x xs)
  | inr h ↦
      rw (differs-other x previous h, h) (ap (λ s. x ++ b'\n' ∷ s) (print_changes-changes x xs))
]

pub print_unique-squeeze :
    (x : Bytes) (xs : List Bytes) → print_unique (x ∷ xs) ≡ returns (print_all (squeeze (x ∷ xs)))
unfolding print_unique print_all
print_unique-squeeze x xs = rw (print_changes-changes x xs) refl

-- Before another line in the order, and not that line.
abbrev pub Below : CmpFn → Bytes → Bytes → Type 0
Below compare a b = (not_positive (compare a b) ≡ true) × (a ≢ b)

module _ (compare : CmpFn) (order : IsOrder compare) where
  changes-mem : (x y : Bytes) (xs : List Bytes) → Mem y (changes x xs) → Mem y xs
  changes-mem x y [] m = m
  changes-mem x y (z ∷ xs) m = elim (Bool-cases (str_eq z x)) [
    | inl h ↦ mem-cons_of_mem z (changes-mem z y xs (rw h at m))
    | inr h ↦
        Or.elim Mem-prop (eq-or-mem_of_mem-cons (rw h at m)) (λ e. rw e mem-cons_self)
          (λ k. mem-cons_of_mem z (changes-mem z y xs k))
  ]

  split :
      (x z : Bytes) (xs : List Bytes)
      → ((z ≡ x) × (changes x (z ∷ xs) ≡ changes z xs)) ⊎ (changes x (z ∷ xs) ≡ z ∷ changes z xs)
  split x z xs = elim (Bool-cases (str_eq z x)) [
    | inl h ↦ inl ((str_eq_iff z x).0 h, rw h refl)
    | inr h ↦ inr (rw h refl)
  ]

  behind :
      (x y z : Bytes) (rest whole : List Bytes)
      → Mem y (z ∷ rest)
      → ((z ≡ x) × (whole ≡ rest)) ⊎ (whole ≡ z ∷ rest)
      → Mem y (x ∷ whole)
  behind x y z rest whole m (inl e) = rw (sym e.0, e.1) m
  behind x y z rest whole m (inr e) = mem-cons_of_mem x (rw e m)

  mem-changes : (x y : Bytes) (xs : List Bytes) → Mem y (x ∷ xs) → Mem y (x ∷ changes x xs)
  mem-changes x y [] m = m
  mem-changes x y (z ∷ xs) m =
      Or.elim Mem-prop (eq-or-mem_of_mem-cons m) (λ e. rw e mem-cons_self)
        (λ k.
          behind x y z (changes z xs) (changes x (z ∷ xs)) (mem-changes z y xs k) (split x z xs))

  pub squeeze-mem : (y : Bytes) (xs : List Bytes) → Mem y (squeeze xs) ↔ Mem y xs
  squeeze-mem y [] = (λ m. m, λ m. m)
  squeeze-mem y (x ∷ xs) = (
    λ m.
        Or.elim Mem-prop (eq-or-mem_of_mem-cons m) (λ e. rw e mem-cons_self)
          (λ k. mem-cons_of_mem x (changes-mem x y xs k)),
    mem-changes x y xs,
  )

  later-Below :
      (x y z : Bytes) (xs : List Bytes)
      → IsSorted compare (x ∷ z ∷ xs)
      → str_eq z x ≡ false
      → Mem y (z ∷ xs)
      → Below compare x y
  later-Below x y z xs (Pairwise.cons above s) h m =
      let differ : x ≢ y = λ e.
        let under : not_positive (compare z x) ≡ true =
          rw e (head_below compare order z y xs s m) in
        let same : z ≡ x = order.antisym z x under (above z mem-cons_self) in
        let found : str_eq z x ≡ true = (str_eq_iff z x).1 same in ground arith in
      (above y m, differ)

  -- Lines in order, once each.
  changes-ascend :
      (x : Bytes) (xs : List Bytes)
      → IsSorted compare (x ∷ xs)
      → Pairwise (Below compare) (x ∷ changes x xs)
  changes-ascend x [] s = Pairwise-singleton _ x
  changes-ascend x (z ∷ xs) s = elim (Bool-cases (str_eq z x)) [
    | inl h ↦
        let e : z ≡ x = (str_eq_iff z x).0 h in
        rw h (rw e (rw e at (changes-ascend z xs (Pairwise.of_cons s))))
    | inr h ↦
        let above : (y : Bytes) → Mem y (z ∷ changes z xs) → Below compare x y =
          λ y m. later-Below x y z xs s h ((squeeze-mem y (z ∷ xs)).0 m) in
        rw h (Pairwise.cons above (changes-ascend z xs (Pairwise.of_cons s)))
  ]

  pub squeeze-ascends :
      (xs : List Bytes) → IsSorted compare xs → Pairwise (Below compare) (squeeze xs)
  squeeze-ascends [] s = Pairwise.nil
  squeeze-ascends (x ∷ xs) s = changes-ascend x xs s
