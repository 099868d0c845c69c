-- ===== src/Grep/Plain.antt =====
-- programs/grep.c: patterns without a special character.
use punchcardos.Grep.{
  CharClass, no_class, match_char, ends, or_else, literal, at_last, at_pair, matchhere, match_loop,
  contains, lowered, match_fixed, match_regex, match,
}
use punchcardos.Prelude.{
  ℕ, ◌≡◌, refl, ◌∙◌, sym, ap, Bool, true, false, not, ◌&&◌, ◌||◌, Bytes, [], ◌∷◌, ◌++◌, ◌==◌,
  if◌then◌else◌, is_prefix, to_lower, until_nul, arith, Bool-cases, inl, inr,
}
use punchcardos.Sys.{Outcome, returns}

-- A character with no meaning of its own in a pattern.
unfoldable pub is_ordinary : ℕ → Bool
is_ordinary c =
    not (c == 0)
    && not (c == b'*')
    && not (c == b'+')
    && not (c == b'?')
    && not (c == b'\\')
    && not (c == b'.')
    && not (c == b'$')
    && not (c == b'^')

unfoldable pub is_plain : Bytes → Bool
unfolding is_ordinary
is_plain [] = true
is_plain (c ∷ s) = is_ordinary c && is_plain s

unfoldable pub has_no_nul : Bytes → Bool
has_no_nul [] = true
has_no_nul (c ∷ s) = not (c == 0) && has_no_nul s

-- A letter in lower case, if the case is ignored.
abbrev pub fold : Bool → ℕ → ℕ
fold caseign c = if caseign then to_lower c else c

unfoldable pub folded : Bool → Bytes → Bytes
folded caseign [] = []
folded caseign (c ∷ s) = fold caseign c ∷ folded caseign s

pub both_left : (a b : Bool) → (a && b) ≡ true → a ≡ true
both_left true b h = refl
both_left false b h = h

pub both_right : (a b : Bool) → (a && b) ≡ true → b ≡ true
both_right true b h = h
both_right false b h = ground arith

pub not-true : {a : Bool} → not a ≡ true → a ≡ false
not-true {a = true} h = sym h
not-true {a = false} h = refl

if-and :
    (a b : Bool) (r : Outcome Bool)
    → r ≡ returns b
    → (if a then r else returns false) ≡ returns (a && b)
if-and true b r h = h
if-and false b r h = refl

match_char-fold :
    (caseign : Bool) (c t : ℕ)
    → is_ordinary c ≡ true
    → match_char caseign no_class c t ≡ (fold caseign c == fold caseign t)
unfolding match_char is_ordinary
match_char-fold true c t h = ground arith
match_char-fold false c t h = ground arith

-- One ordinary character against the text, with `rest` for what follows it.
literal-fold :
    (caseign : Bool) (c t : ℕ) (text : Bytes) (here : Bytes → Outcome Bool)
    → is_ordinary c ≡ true
    → not (t == 0) ≡ true
    → literal caseign here no_class c (t ∷ text)
      ≡ (if fold caseign c == fold caseign t then here text else returns false)
unfolding literal
literal-fold caseign c t text here o n =
    let g : (not (t == 0) && match_char caseign no_class c t) ≡ (fold caseign c == fold caseign t) =
      rw n (match_char-fold caseign c t o) in
    elim (Bool-cases (fold caseign c == fold caseign t)) [
      | inl e ↦ rw (g, literal) (rw e refl)
      | inr e ↦ rw (g, literal) (rw e refl)
    ]

at_pair-ordinary :
    (caseign : Bool) (next here : CharClass → Bytes → Outcome Bool) (c d : ℕ) (text : Bytes)
    → is_ordinary c ≡ true
    → is_ordinary d ≡ true
    → at_pair caseign next here c d no_class text ≡ literal caseign (next no_class) no_class c text
unfolding at_pair is_ordinary
at_pair-ordinary caseign next here c d text h k =
    let star : (d == b'*') ≡ false = ground arith in
    let plus : (d == b'+') ≡ false = ground arith in
    let query : (d == b'?') ≡ false = ground arith in
    let slash : (c == b'\\') ≡ false = ground arith in rw (star, plus, query, slash, at_pair) refl

at_last-ordinary :
    (caseign : Bool) (c : ℕ) (text : Bytes)
    → is_ordinary c ≡ true
    → at_last caseign c no_class text ≡ literal caseign (λ rest. returns true) no_class c text
unfolding at_last ends is_ordinary
at_last-ordinary caseign c text h =
    let dollar : (c == b'$') ≡ false = ground arith in
    let slash : (c == b'\\') ≡ false = ground arith in rw (dollar, slash, at_last) refl

-- A plain pattern is compared with the start of the text.
pub matchhere-plain :
    (caseign : Bool) (re text after : Bytes)
    → is_plain re ≡ true
    → has_no_nul text ≡ true
    → matchhere caseign re no_class (text ++ 0 ∷ after)
      ≡ returns (is_prefix (folded caseign re) (folded caseign text))
unfolding matchhere ends is_plain has_no_nul is_prefix folded literal
matchhere-plain caseign [] text after p n = refl
matchhere-plain caseign (c ∷ []) [] after p n =
    at_last-ordinary caseign c (0 ∷ after) (both_left _ _ p)
matchhere-plain caseign (c ∷ []) (t ∷ text) after p n =
    at_last-ordinary caseign c (t ∷ (text ++ 0 ∷ after)) (both_left _ _ p)
    ∙ literal-fold caseign c t (text ++ 0 ∷ after) (λ rest. returns true) (both_left _ _ p)
        (both_left _ _ n)
    ∙ if-and (fold caseign c == fold caseign t) true (returns true) refl
matchhere-plain caseign (c ∷ (d ∷ re)) [] after p n =
    at_pair-ordinary caseign (λ k t. matchhere caseign (d ∷ re) k t)
      (λ k t. matchhere caseign re k t) c d (0 ∷ after) (both_left _ _ p)
      (both_left _ _ (both_right _ _ p))
matchhere-plain caseign (c ∷ (d ∷ re)) (t ∷ text) after p n =
    let rest = matchhere-plain caseign (d ∷ re) text after (both_right _ _ p) (both_right _ _ n) in
    at_pair-ordinary caseign (λ k u. matchhere caseign (d ∷ re) k u)
      (λ k u. matchhere caseign re k u) c d (t ∷ (text ++ 0 ∷ after)) (both_left _ _ p)
      (both_left _ _ (both_right _ _ p))
    ∙ literal-fold caseign c t (text ++ 0 ∷ after) (matchhere caseign (d ∷ re) no_class)
        (both_left _ _ p) (both_left _ _ n)
    ∙ if-and (fold caseign c == fold caseign t) _ _ rest

or_else-or :
    (a b : Bool) (r : Outcome Bool)
    → r ≡ returns b
    → or_else (returns a) (returns true) r ≡ returns (a || b)
or_else-or true b r h = refl
or_else-or false b r h = h

contains-nil : (p : Bytes) → (is_prefix p [] || false) ≡ contains p []
unfolding contains is_prefix
contains-nil [] = refl
contains-nil (c ∷ p) = refl

match_loop-plain :
    (caseign : Bool) (re text after : Bytes)
    → is_plain re ≡ true
    → has_no_nul text ≡ true
    → match_loop caseign re (text ++ 0 ∷ after)
      ≡ returns (contains (folded caseign re) (folded caseign text))
unfolding match_loop contains folded has_no_nul
match_loop-plain caseign re [] after p n = rw (matchhere-plain caseign re [] after p n) (
    or_else-or (is_prefix (folded caseign re) []) false (returns false) refl
    ∙ ap returns (contains-nil (folded caseign re)))
match_loop-plain caseign re (t ∷ text) after p n =
    let zero_test : (t == 0) ≡ false = not-true (both_left _ _ n) in
    let rest = match_loop-plain caseign re text after p (both_right _ _ n) in
    rw (matchhere-plain caseign re (t ∷ text) after p n) (
      or_else-or (is_prefix (folded caseign re) (folded caseign (t ∷ text))) _ _
        (rw zero_test rest))

folded-lowered : (s : Bytes) → folded true s ≡ lowered s
unfolding folded lowered
folded-lowered [] = refl
folded-lowered (c ∷ s) = ap (λ r. to_lower c ∷ r) (folded-lowered s)

folded-same : (s : Bytes) → folded false s ≡ s
unfolding folded
folded-same [] = refl
folded-same (c ∷ s) = ap (λ r. c ∷ r) (folded-same s)

until_nul-append :
    (text after : Bytes) → has_no_nul text ≡ true → until_nul (text ++ 0 ∷ after) ≡ text
unfolding until_nul has_no_nul
until_nul-append [] after n = refl
until_nul-append (t ∷ text) after n =
    let zero_test : (t == 0) ≡ false = not-true (both_left _ _ n) in
    rw zero_test (ap (λ r. t ∷ r) (until_nul-append text after (both_right _ _ n)))

match_fixed-folded :
    (caseign : Bool) (re text after : Bytes)
    → has_no_nul text ≡ true
    → match_fixed caseign re (text ++ 0 ∷ after)
      ≡ contains (folded caseign re) (folded caseign text)
unfolding match_fixed
match_fixed-folded true re text after n =
    rw (until_nul-append text after n, folded-lowered re, folded-lowered text) refl
match_fixed-folded false re text after n =
    rw (until_nul-append text after n, folded-same re, folded-same text) refl

match_regex-plain :
    (caseign : Bool) (re text after : Bytes)
    → is_plain re ≡ true
    → has_no_nul text ≡ true
    → match_regex caseign re (text ++ 0 ∷ after)
      ≡ returns (contains (folded caseign re) (folded caseign text))
unfolding match_regex is_plain is_ordinary
match_regex-plain caseign [] text after p n = match_loop-plain caseign [] text after p n
match_regex-plain caseign (c ∷ re) text after p n =
    let hat : (c == b'^') ≡ false = ground arith in
    rw (hat, match_regex) (match_loop-plain caseign (c ∷ re) text after p n)

-- On a line, with or without regard to the case: a pattern without special characters is found exactly
-- if it stands somewhere in the line, by the matcher of expressions and by the search for fixed strings.
pub match-plain :
    (fixed caseign : Bool) (re text after : Bytes)
    → is_plain re ≡ true
    → has_no_nul text ≡ true
    → match fixed caseign re (text ++ 0 ∷ after)
      ≡ returns (contains (folded caseign re) (folded caseign text))
unfolding match
match-plain true caseign re text after p n = ap returns (match_fixed-folded caseign re text after n)
match-plain false caseign re text after p n = match_regex-plain caseign re text after p n
