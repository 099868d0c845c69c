-- ===== src/Grep/Repeat.antt =====
-- programs/grep.c: what `*` and `+` do in a pattern.
use punchcardos.Grep.Plain.{is_plain, has_no_nul, matchhere-plain, both_left, both_right, not-true}
use punchcardos.Grep.{
  CharClass, no_class, match_char, or_else, matchstar, matchplus, at_pair, matchhere, match_loop,
  match_regex, match, ends,
}
use punchcardos.Prelude.{
  ℕ, ◌≡◌, ◌≢◌, refl, Bool, true, false, not, ◌&&◌, Bytes, [], ◌∷◌, ◌++◌, ◌==◌, ==_ne,
}
use punchcardos.Sys.{Outcome, returns}

found :
    (a : Bool) (r : Outcome Bool)
    → r ≡ returns true
    → or_else (returns a) (returns true) r ≡ returns true
found true r h = refl
found false r h = h

either :
    (x : Bool) (r : Outcome Bool)
    → r ≡ returns true
    → (elim x [ true ↦ r | false ↦ returns true ]) ≡ returns true
either true r h = h
either false r h = refl

-- Whatever follows the star, as long as it answers on every rest of the line, the answer is yes.
matchstar-found :
    (caseign : Bool) (here : Bytes → Outcome Bool) (class : CharClass) (c : ℕ) (text after : Bytes)
    → ((s : Bytes) → has_no_nul s ≡ true → (b : Bool) × (here (s ++ 0 ∷ after) ≡ returns b))
    → has_no_nul text ≡ true
    → matchstar caseign here class c (text ++ 0 ∷ after) ≡ returns true
unfolding matchstar has_no_nul
matchstar-found caseign here class c [] after a n =
    let (b, e) = a [] refl in rw e (found b (returns true) refl)
matchstar-found caseign here class c (t ∷ text) after a n =
    let (b, e) = a (t ∷ text) n in
    let more = matchstar-found caseign here class c text after a (both_right _ _ n) in
    rw e (found b _ (either (not (t == 0) && match_char caseign class c t) _ more))

star_at :
    (caseign : Bool) (c : ℕ) (re text after : Bytes)
    → is_plain re ≡ true
    → has_no_nul text ≡ true
    → matchhere caseign (c ∷ b'*' ∷ re) no_class (text ++ 0 ∷ after) ≡ returns true
unfolding matchhere at_pair
star_at caseign c re text after p n =
    matchstar-found caseign (matchhere caseign re no_class) no_class c text after
      (λ s m. (_, matchhere-plain caseign re s after p m)) n

star_loop :
    (caseign : Bool) (c : ℕ) (re text after : Bytes)
    → is_plain re ≡ true
    → has_no_nul text ≡ true
    → match_loop caseign (c ∷ b'*' ∷ re) (text ++ 0 ∷ after) ≡ returns true
unfolding match_loop
star_loop caseign c re [] after p n = rw (star_at caseign c re [] after p n) refl
star_loop caseign c re (t ∷ text) after p n = rw (star_at caseign c re (t ∷ text) after p n) refl

-- A pattern that starts with any character and a star, and goes on with a text without special
-- characters, is found in every line, also where that text does not occur.
match-star :
    (caseign : Bool) (c : ℕ) (re text after : Bytes)
    → c ≢ b'^'
    → is_plain re ≡ true
    → has_no_nul text ≡ true
    → match false caseign (c ∷ b'*' ∷ re) (text ++ 0 ∷ after) ≡ returns true
unfolding match match_regex
match-star caseign c re text after h p n =
    rw (==_ne c b'^' h, match_regex) (star_loop caseign c re text after p n)

plus_at :
    (caseign : Bool) (c : ℕ) (text after : Bytes)
    → matchhere caseign (c ∷ b'+' ∷ []) no_class (text ++ 0 ∷ after) ≡ returns false
unfolding matchhere at_pair matchplus ends
plus_at caseign c [] after = refl
plus_at caseign c (t ∷ text) after = refl

plus_loop :
    (caseign : Bool) (c : ℕ) (text after : Bytes)
    → has_no_nul text ≡ true
    → match_loop caseign (c ∷ b'+' ∷ []) (text ++ 0 ∷ after) ≡ returns false
unfolding match_loop has_no_nul
plus_loop caseign c [] after n = rw (plus_at caseign c [] after) refl
plus_loop caseign c (t ∷ text) after n =
    let zero_test : (t == 0) ≡ false = not-true (both_left _ _ n) in
    rw (plus_at caseign c (t ∷ text) after)
      (rw zero_test (plus_loop caseign c text after (both_right _ _ n)))

-- A pattern of one character and a plus is found in no line, not even in one that holds the character.
pub match-plus :
    (caseign : Bool) (c : ℕ) (text after : Bytes)
    → c ≢ b'^'
    → has_no_nul text ≡ true
    → match false caseign (c ∷ b'+' ∷ []) (text ++ 0 ∷ after) ≡ returns false
unfolding match match_regex
match-plus caseign c text after h n =
    rw (==_ne c b'^' h, match_regex) (plus_loop caseign c text after n)
