-- ===== src/Sort/Array.antt =====
-- The array of lines of programs/sort.c as a list. What reads or writes outside it gives `none`.
use mathlib.Core.Logic.{∥∥₁_elim}
use mathlib.Core.List.{Perm, Permᴰ}
use native.Mathlib.Nat.{ℕ_set}
use punchcardos.Prelude.Maybe.{◌>>=◌}
use punchcardos.Prelude.{
  ℕ, zero, suc, ◌+◌, ◌≡◌, refl, sym, ap, ◌∙◌, List, [], ◌∷◌, ◌++◌, Option, some, length, get_elem?,
  append_assoc, length-append, arith,
}

module _ {ℓ} {A : Type ℓ} where
  abbrev pub set : ℕ → A → List A → List A
  set i v [] = []
  set zero v (x ∷ xs) = v ∷ xs
  set (suc i) v (x ∷ xs) = x ∷ set i v xs

  unfoldable pub swap : ℕ → ℕ → List A → Option (List A)
  swap i j a = do temp ← get_elem? a i; other ← get_elem? a j; some (set j temp (set i other a))

  -- The first entry moves to the end.
  abbrev pub rotate : List A → List A
  rotate [] = []
  rotate (x ∷ xs) = xs ++ x ∷ []

  pub get_elem?-middle : (u v : List A) (x : A) → get_elem? (u ++ x ∷ v) (length u) ≡ some x
  get_elem?-middle [] v x = refl
  get_elem?-middle (y ∷ u) v x = get_elem?-middle u v x

  set-middle : (u v : List A) (x y : A) → set (length u) y (u ++ x ∷ v) ≡ u ++ y ∷ v
  set-middle [] v x y = refl
  set-middle (z ∷ u) v x y = ap (◌∷◌ z) (set-middle u v x y)

  swap-of_steps :
      (i j : ℕ) (a b c : List A) (x y : A)
      → get_elem? a i ≡ some x
      → get_elem? a j ≡ some y
      → set i y a ≡ b
      → set j x b ≡ c
      → swap i j a ≡ some c
  unfolding swap
  swap-of_steps i j a b c x y hx hy hb hc = rw (hx, hy, hb, hc)

  -- An exchange of the entry behind a middle part with the first of that part.
  pub swap-rotate :
      (u v t : List A) (y : A)
      → swap (length u) (length u + length v) (u ++ (v ++ y ∷ t)) ≡ some (u ++ y ∷ (rotate v ++ t))
  swap-rotate u [] t y =
      let e : length u + 0 ≡ length u = omega arith in
      let at_y = get_elem?-middle u t y in
      let same = set-middle u t y y in
      rw e (swap-of_steps (length u) (length u) _ _ _ y y at_y at_y same same)
  swap-rotate u (x ∷ v) t y =
      let front = u ++ x ∷ v in
      let back = u ++ y ∷ v in
      let place : length u + suc (length v) ≡ length front =
        omega (arith, length-append u (x ∷ v)) in
      let place' : length u + suc (length v) ≡ length back =
        omega (arith, length-append u (y ∷ v)) in
      let whole : front ++ y ∷ t ≡ u ++ x ∷ (v ++ y ∷ t) = append_assoc u (x ∷ v) (y ∷ t) in
      let changed : back ++ y ∷ t ≡ u ++ y ∷ (v ++ y ∷ t) = append_assoc u (y ∷ v) (y ∷ t) in
      let last : back ++ x ∷ t ≡ u ++ y ∷ ((v ++ x ∷ []) ++ t) =
        rw (append_assoc v (x ∷ []) t) (append_assoc u (y ∷ v) (x ∷ t)) in
      let at_y : get_elem? (u ++ x ∷ (v ++ y ∷ t)) (length u + suc (length v)) ≡ some y =
        rw (sym whole, place) (get_elem?-middle front t y) in
      let stored : set (length u + suc (length v)) x (u ++ y ∷ (v ++ y ∷ t)) ≡ back ++ x ∷ t =
        rw (sym changed, place') (set-middle back t y x) in
      swap-of_steps _ _ _ _ _ x y (get_elem?-middle u (v ++ y ∷ t) x) at_y
        (set-middle u (v ++ y ∷ t) x y) (stored ∙ last)

  length-perm_data : {a b : List A} → Permᴰ a b → length a ≡ length b
  length-perm_data Permᴰ.nil = refl
  length-perm_data (Permᴰ.cons e p) = ap suc (length-perm_data p)
  length-perm_data (Permᴰ.swap e e') = refl
  length-perm_data (Permᴰ.trans p q) = length-perm_data p ∙ length-perm_data q

  pub length-perm : {a b : List A} → Perm a b → length a ≡ length b
  length-perm p = ∥∥₁_elim p (ℕ_set _ _) length-perm_data

  -- A list that is not empty ends with an entry.
  pub last-split :
      (a : List A) (n : ℕ) → length a ≡ suc n → (b : List A) × (x : A) × (a ≡ b ++ x ∷ [])
  last-split [] n h = absurd (omega arith)
  last-split (x ∷ []) n h = ([], x, refl)
  last-split (x ∷ y ∷ a) n h =
      let rest = last-split (y ∷ a) (length a) refl in (x ∷ rest.0, rest.1, ap (◌∷◌ x) rest.2)
