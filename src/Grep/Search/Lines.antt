-- ===== src/Grep/Search/Lines.antt =====
-- programs/grep.c: what `grep` writes for a file that one read gives.
use punchcardos.Grep.Plain.{has_no_nul, folded, both_left, both_right, not-true}
use punchcardos.Grep.Search.{Flags, go_on, find_line, judge, show}
use punchcardos.Grep.{contains}
use punchcardos.Prelude.{
  ◌≡◌, refl, ◌∙◌, sym, ap, Bool, true, false, not, ◌&&◌, ◌||◌, some, none, Bytes, List, [], ◌∷◌,
  ◌++◌, ◌==◌, if◌then◌else◌, append-nil, Bool-cases, inl, inr,
}
use punchcardos.Sys.{returns, open_output, write}

-- A line has neither a NUL nor a newline in it.
unfoldable pub is_line : Bytes → Bool
is_line [] = true
is_line (c ∷ s) = not (c == 0) && (not (c == b'\n') && is_line s)

unfoldable pub are_lines : List Bytes → Bool
unfolding is_line
are_lines [] = true
are_lines (r ∷ rs) = is_line r && are_lines rs

-- Lines, each with its newline, before `end`.
unfoldable pub lines_text : List Bytes → Bytes → Bytes
lines_text [] end = end
lines_text (r ∷ rs) end = r ++ b'\n' ∷ lines_text rs end

-- The lines that are wanted: with the pattern in them, or without it.
unfoldable pub is_wanted : Flags → Bytes → Bytes → Bool
unfolding contains folded
is_wanted fs re r =
    let found = contains (folded fs.caseign re) (folded fs.caseign r) in
    if fs.invert then not found else found

unfoldable pub wanted : Flags → Bytes → List Bytes → List Bytes
unfolding is_wanted
wanted fs re [] = []
wanted fs re (r ∷ rs) = if is_wanted fs re r then r ∷ wanted fs re rs else wanted fs re rs

-- What is written of them: nothing with `-q`.
unfoldable pub listed : Flags → List Bytes → Bytes
unfolding lines_text
listed fs rs = if fs.quiet then [] else lines_text rs []

abbrev pub is_any : List Bytes → Bool
is_any [] = false
is_any (r ∷ rs) = true

pub find_line-newline :
    (r rest : Bytes) → is_line r ≡ true → find_line (r ++ b'\n' ∷ rest) ≡ some (r, rest)
unfolding find_line is_line
find_line-newline [] rest h = refl
find_line-newline (c ∷ r) rest h =
    let nul : (c == 0) ≡ false = not-true (both_left _ _ h) in
    let newline : (c == b'\n') ≡ false = not-true (both_left _ _ (both_right _ _ h)) in
    let more : find_line (r ++ b'\n' ∷ rest) ≡ some (r, rest) =
      find_line-newline r rest (both_right _ _ (both_right _ _ h)) in
    rw (nul, find_line) (rw newline (rw more refl))

pub find_line-end : (r : Bytes) → is_line r ≡ true → find_line (r ++ 0 ∷ []) ≡ none
unfolding find_line is_line
find_line-end [] h = refl
find_line-end (c ∷ r) h =
    let nul : (c == 0) ≡ false = not-true (both_left _ _ h) in
    let newline : (c == b'\n') ≡ false = not-true (both_left _ _ (both_right _ _ h)) in
    let more : find_line (r ++ 0 ∷ []) ≡ none =
      find_line-end r (both_right _ _ (both_right _ _ h)) in
    rw (nul, find_line) (rw newline (rw more refl))

pub is_line-has_no_nul : (r : Bytes) → is_line r ≡ true → has_no_nul r ≡ true
unfolding is_line has_no_nul
is_line-has_no_nul [] h = refl
is_line-has_no_nul (c ∷ r) h =
    let nul : not (c == 0) ≡ true = both_left _ _ h in
    rw nul (is_line-has_no_nul r (both_right _ _ (both_right _ _ h)))

-- What one line adds to the output.
abbrev pub shown : Flags → Bool → Bytes → Bytes
shown fs b r = if b then (if fs.quiet then [] else r ++ b'\n' ∷ []) else []

show-wanted :
    (fs : Flags) (r w : Bytes)
    → show fs r (open_output w) ≡ go_on true (open_output (w ++ shown fs true r))
unfolding show write
show-wanted fs r w = elim (Bool-cases fs.quiet) [
  | inl q ↦ rw (q, append-nil) refl
  | inr q ↦ rw q refl
]

pub or_true : (b : Bool) → (b || true) ≡ true
or_true true = refl
or_true false = refl

pub or_false : (b : Bool) → (b || false) ≡ b
or_false true = refl
or_false false = refl

show-any :
    (fs : Flags) (r w : Bytes) (any : Bool)
    → show fs r (open_output w) ≡ go_on (any || true) (open_output (w ++ shown fs true r))
show-any fs r w any =
    show-wanted fs r w ∙ ap (λ b. go_on b (open_output (w ++ shown fs true r))) (sym (or_true any))

pass :
    (w : Bytes) (any : Bool)
    → go_on any (open_output w) ≡ go_on (any || false) (open_output (w ++ []))
pass w any = rw (or_false any, append-nil) refl

pub judge-wanted :
    (fs : Flags) (r w : Bytes) (any b : Bool)
    → judge fs r any (open_output w) (returns b)
      ≡ go_on
          (any || (if fs.invert then not b else b))
          (open_output (w ++ shown fs (if fs.invert then not b else b) r))
unfolding judge
judge-wanted fs r w any true = elim (Bool-cases fs.invert) [
  | inl q ↦ rw (q, judge) (pass w any)
  | inr q ↦ rw (q, judge) (show-any fs r w any)
]
judge-wanted fs r w any false = elim (Bool-cases fs.invert) [
  | inl q ↦ rw (q, judge) (show-any fs r w any)
  | inr q ↦ rw (q, judge) (pass w any)
]
