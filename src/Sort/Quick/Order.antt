-- ===== src/Sort/Quick/Order.antt =====
-- What `quick_sort` of programs/sort.c makes of an array: the same entries in ascending order.
use mathlib.Core.Bool.{Bool-set}
use mathlib.Core.List.{
  Mem, Perm, Pairwise, Pairwise-append, Pairwise-singleton, perm_middle, eq-or-mem_of_mem-cons,
}
use mathlib.Core.List.Perm
use mathlib.Core.Logic.Or
use punchcardos.Prelude.Maybe.{◌>>=◌}
use punchcardos.Prelude.{
  ℕ, zero, suc, ◌+◌, ◌-◌, ◌<◌, ◌≤◌, ◌≡◌, refl, sym, ap, ◌∙◌, true, false, List, [], ◌∷◌, ◌++◌,
  Bytes, Option, some, length, append_assoc, append-nil, length-append, Bool-cases, inl, inr, ltb,
  arith,
}
use punchcardos.Sort.Array.{length-perm, last-split}
use punchcardos.Sort.Compare.{CmpFn, not_positive}
use punchcardos.Sort.Compare.Laws.{IsOrder}
use punchcardos.Sort.Quick.Loop.{AllTest, AllTest-perm}
use punchcardos.Sort.Quick.Partition.{Parts, partition-Parts}
use punchcardos.Sort.Quick.{partition, quick_sort}

abbrev pub IsSorted : CmpFn → List Bytes → Type 0
IsSorted compare = Pairwise (λ a b. not_positive (compare a b) ≡ true)

-- A run that leaves the entries of a part in order, and the array around it as it was.
pub record Sorts (compare : CmpFn) (run : Option (List Bytes)) (front entries t : List Bytes)
    : Type 0 where
  pub sorted : List Bytes
  pub result : run ≡ some (front ++ (sorted ++ t))
  pub kept : Perm sorted entries
  pub ordered : IsSorted compare sorted

module _ (compare : CmpFn) (order : IsOrder compare) where
  above_pivot :
      (x : Bytes) (highs : List Bytes)
      → AllTest compare x false highs
      → (y : Bytes) → Mem y highs
      → not_positive (compare x y) ≡ true
  above_pivot x highs all y m = order.total y x (all y m)

  -- Two sorted parts on the two sides of an entry that divides them.
  around_pivot :
      (x : Bytes) (lows highs : List Bytes)
      → IsSorted compare lows
      → IsSorted compare highs
      → AllTest compare x true lows
      → AllTest compare x false highs
      → IsSorted compare (lows ++ x ∷ highs)
  around_pivot x lows highs sl sh low high =
      let above = above_pivot x highs high in
      let across : (a : Bytes)
          → Mem a lows
          → (b : Bytes) → Mem b (x ∷ highs)
          → not_positive (compare a b) ≡ true =
        λ a ma b mb.
          Or.elim (Bool-set _ _) (eq-or-mem_of_mem-cons mb) (λ e. rw e (low a ma))
            (λ m. order.trans a x b (low a ma) (above b m)) in
      (Pairwise-append (λ a b. Bool-set _ _)).1 (sl, Pairwise.cons above sh, across)

  short-IsSorted : (entries : List Bytes) → length entries ≤ 1 → IsSorted compare entries
  short-IsSorted [] h = Pairwise.nil
  short-IsSorted (x ∷ []) h = Pairwise-singleton _ x
  short-IsSorted (x ∷ y ∷ entries) h = absurd (omega arith)

  quick_sort-of_steps :
      (f p q end : ℕ) (a b c d : List Bytes)
      → ltb (suc p) end ≡ true
      → partition compare p (end - 1) a ≡ some (b, q)
      → quick_sort f compare p q b ≡ some c
      → quick_sort f compare (suc q) end c ≡ some d
      → quick_sort (suc f) compare p end a ≡ some d
  unfolding quick_sort
  quick_sort-of_steps f p q end a b c d long split first second =
      rw (long, quick_sort) (rw (split, ◌>>=◌) (rw (first, second) refl))

  quick_sort-short :
      (f p end : ℕ) (a : List Bytes)
      → ltb (suc p) end ≡ false
      → quick_sort (suc f) compare p end a ≡ some a
  unfolding quick_sort
  quick_sort-short f p end a short = rw (short, quick_sort) refl

  -- The sorting of the two parts, from that of each of them.
  join :
      (f : ℕ) (x : Bytes) (front body t : List Bytes)
      (parts : Parts compare x
        (partition compare (length front) (length front + length body) (front ++ (body ++ x ∷ t)))
        front
        body
        t)
      (first : Sorts compare
        (quick_sort f compare
          (length front)
          (length front + length parts.lows)
          (front ++ (parts.lows ++ x ∷ (parts.highs ++ t))))
        front
        parts.lows
        (x ∷ (parts.highs ++ t)))
      (second : Sorts compare
        (quick_sort f compare
          (suc (length front + length parts.lows))
          (suc (length front + length body))
          (front ++ (first.sorted ++ x ∷ (parts.highs ++ t))))
        (front ++ (first.sorted ++ x ∷ []))
        parts.highs
        t)
      → ltb (suc (length front)) (suc (length front + length body)) ≡ true
      → Sorts compare
          (quick_sort
            (suc f)
            compare
            (length front)
            (suc (length front + length body))
            (front ++ (body ++ x ∷ t)))
          front
          (body ++ x ∷ [])
          t
  join f x front body t parts first second long = record {
    sorted = first.sorted ++ x ∷ second.sorted;
    result =
        (let back = second.sorted ++ t in
          let whole : (front ++ (first.sorted ++ x ∷ [])) ++ back
              ≡ front ++ ((first.sorted ++ x ∷ second.sorted) ++ t) =
            rw (
              append_assoc front (first.sorted ++ x ∷ []) back,
              append_assoc first.sorted (x ∷ []) back,
              append_assoc first.sorted (x ∷ second.sorted) t,
            ) in
          let last : suc (length front + length body) - 1 ≡ length front + length body =
            omega arith in
          quick_sort-of_steps f _ _ _ _ _ _ _ long (rw last parts.result) first.result
            (rw whole at second.result));
    kept =
        (let out = perm_middle {a = x} first.sorted second.sorted in
          let within = Perm.trans (Perm.append first.kept second.kept) parts.kept in
          let back : Perm (body ++ x ∷ []) (x ∷ body) =
            rw (append-nil body) at (perm_middle {a = x} body []) in
          Perm.trans out (Perm.trans (Perm.cons x within) (Perm.symm back)));
    ordered =
        around_pivot x first.sorted second.sorted first.ordered second.ordered
          (AllTest-perm compare x true _ _ first.kept parts.low)
          (AllTest-perm compare x false _ _ second.kept parts.high);
  }

  -- A part of two entries or more, when the shorter parts are sorted.
  quick_sort-long :
      (f : ℕ) (front body t : List Bytes) (x : Bytes)
      → ((u entries v : List Bytes)
          → length entries < f
          → Sorts compare
              (quick_sort f compare (length u) (length u + length entries) (u ++ (entries ++ v)))
              u
              entries
              v)
      → length body < f
      → ltb (suc (length front)) (suc (length front + length body)) ≡ true
      → Sorts compare
          (quick_sort
            (suc f)
            compare
            (length front)
            (suc (length front + length body))
            (front ++ (body ++ x ∷ t)))
          front
          (body ++ x ∷ [])
          t
  quick_sort-long f front body t x again h long =
      let parts = partition-Parts compare x front body t in
      let sizes : length parts.lows + length parts.highs ≡ length body =
        sym (length-append parts.lows parts.highs) ∙ length-perm parts.kept in
      let first = again front parts.lows (x ∷ (parts.highs ++ t)) (omega arith) in
      let front2 = front ++ (first.sorted ++ x ∷ []) in
      let same : length first.sorted ≡ length parts.lows = length-perm first.kept in
      let begin : length front2 ≡ suc (length front + length parts.lows) = omega (
        arith,
        length-append front (first.sorted ++ x ∷ []),
        length-append first.sorted (x ∷ []),
      ) in
      let end : suc (length front + length parts.lows) + length parts.highs
          ≡ suc (length front + length body) =
        omega arith in
      let whole : front2 ++ (parts.highs ++ t) ≡ front ++ (first.sorted ++ x ∷ (parts.highs ++ t)) =
        rw (
          append_assoc front (first.sorted ++ x ∷ []) (parts.highs ++ t),
          append_assoc first.sorted (x ∷ []) (parts.highs ++ t),
        ) in
      let second = rw (begin, end, whole) at (again front2 parts.highs t (omega arith)) in
      join f x front body t parts first second long

  quick_sort-split :
      (f : ℕ) (front entries t body : List Bytes) (x : Bytes)
      → entries ≡ body ++ x ∷ []
      → ((u entries v : List Bytes)
          → length entries < f
          → Sorts compare
              (quick_sort f compare (length u) (length u + length entries) (u ++ (entries ++ v)))
              u
              entries
              v)
      → length entries < suc f
      → ltb (suc (length front)) (length front + length entries) ≡ true
      → Sorts compare
          (quick_sort
            (suc f)
            compare
            (length front)
            (length front + length entries)
            (front ++ (entries ++ t)))
          front
          entries
          t
  quick_sort-split f front entries t body x e again h long =
      let size : length entries ≡ suc (length body) =
        ap length e ∙ omega (arith, length-append body (x ∷ [])) in
      let place : length front + length entries ≡ suc (length front + length body) = omega arith in
      let whole : front ++ (entries ++ t) ≡ front ++ (body ++ x ∷ t) =
        rw (e, append_assoc body (x ∷ []) t) in
      let sorted = quick_sort-long f front body t x again (omega arith) (rw place at long) in
      rw (place, whole) (rw (sym e) at sorted)

  -- Enough rounds sort the part of an array that is between two others, and leave these alone.
  pub quick_sort-part :
      (f : ℕ) (front entries t : List Bytes)
      → length entries < f
      → Sorts compare
          (quick_sort f compare
            (length front)
            (length front + length entries)
            (front ++ (entries ++ t)))
          front
          entries
          t
  quick_sort-part zero front entries t h = absurd (omega arith)
  quick_sort-part (suc f) front entries t h =
      let end = length front + length entries in
      elim (Bool-cases (ltb (suc (length front)) end)) [
        | inr short ↦ record {
          sorted = entries;
          result = quick_sort-short f _ _ _ short;
          kept = Perm.refl entries;
          ordered = short-IsSorted entries (ground arith);
        }
        | inl long ↦
            let halves = last-split entries (length entries - 1) (ground arith) in
            quick_sort-split f front entries t halves.0 halves.1 halves.2
              (λ u e v. quick_sort-part f u e v) h long
      ]
