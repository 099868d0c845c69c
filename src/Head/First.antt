-- ===== src/Head/First.antt =====
-- The first lines that programs/head.c prints, as lines.
use punchcardos.Head.Cut.{
  Undelimited, AreUndelimited, ended, before, consed, before-other, before-last, before-earlier,
}
use punchcardos.Head.Lines.{behind, read_loop-printed}
use punchcardos.Head.{read_lines}
use punchcardos.Prelude.{
  ℕ, suc, ◌-◌, ◌^◌, ◌<◌, ◌≡◌, refl, sym, ap, ◌∙◌, Bool, true, false, List, [], ◌∷◌, ◌++◌, Bytes,
  Option, none, some, length, ◌==◌, if◌then◌else◌, ==_ne, ==_refl, append_assoc, append-nil, arith,
}
use punchcardos.Sys.Reads.{readable}
use punchcardos.Sys.{ReadEvent, open_output, exit_success}

consed-behind : (c : ℕ) (xs : Bytes) (b : Option Bytes) → consed c (behind xs b) ≡ behind (c ∷ xs) b
consed-behind c xs none = refl
consed-behind c xs (some p) = refl

behind-nil : (b : Option Bytes) → behind [] b ≡ b
behind-nil none = refl
behind-nil (some p) = refl

behind-behind : (xs ys : Bytes) (b : Option Bytes) → behind xs (behind ys b) ≡ behind (xs ++ ys) b
behind-behind xs ys none = refl
behind-behind xs ys (some p) = ap some (sym (append_assoc xs ys p))

module _ (delim : ℕ) where
  before-line :
      (y s : Bytes) (n : ℕ)
      → Undelimited delim y
      → before delim n (y ++ s) ≡ behind y (before delim n s)
  before-line [] s n Undelimited.nil = sym (behind-nil (before delim n s))
  before-line (c ∷ y) s n (Undelimited.cons h u) =
      before-other delim c (y ++ s) n (==_ne c delim h)
      ∙ (ap (consed c) (before-line y s n u) ∙ consed-behind c y (before delim n s))

  -- A whole line in front, when it is not the last that is wanted.
  before-ended_line :
      (y s : Bytes) (n : ℕ)
      → Undelimited delim y
      → (n == 1) ≡ false
      → before delim n (y ++ delim ∷ s) ≡ behind (y ++ delim ∷ []) (before delim (n - 1) s)
  before-ended_line y s n u h =
      let step : before delim n (delim ∷ s) ≡ behind (delim ∷ []) (before delim (n - 1) s) =
        before-earlier delim delim s n (==_refl delim) h
        ∙ ap (consed delim) (sym (behind-nil (before delim (n - 1) s)))
        ∙ consed-behind delim [] (before delim (n - 1) s) in
      before-line y (delim ∷ s) n u
      ∙ (ap (behind y) step ∙ behind-behind y (delim ∷ []) (before delim (n - 1) s))

  before-enough :
      (xs : List Bytes) (y rest : Bytes) (n : ℕ)
      → AreUndelimited delim xs
      → Undelimited delim y
      → n ≡ suc (length xs)
      → before delim n (ended delim xs ++ (y ++ delim ∷ rest)) ≡ some (ended delim xs ++ y)
  before-enough [] y rest n AreUndelimited.nil u h =
      let one : (n == 1) ≡ true = ground arith in
      before-line y (delim ∷ rest) n u
      ∙ (ap (behind y) (before-last delim delim rest n (==_refl delim) one)
          ∙ ap some (append-nil y))
  before-enough (x ∷ xs) y rest n (AreUndelimited.cons k a) u h =
      let other : (n == 1) ≡ false = ground arith in
      let tail = ended delim xs ++ (y ++ delim ∷ rest) in
      let more : before delim (n - 1) tail ≡ some (ended delim xs ++ y) =
        before-enough xs y rest (n - 1) a u (omega arith) in
      rw
        (
          append_assoc x (delim ∷ ended delim xs) (y ++ delim ∷ rest),
          append_assoc x (delim ∷ ended delim xs) y,
        )
        (before-ended_line x tail n k other
          ∙ (ap (behind (x ++ delim ∷ [])) more
              ∙ ap some (append_assoc x (delim ∷ []) (ended delim xs ++ y))))

  before-fewer :
      (xs : List Bytes) (y : Bytes) (n : ℕ)
      → AreUndelimited delim xs
      → Undelimited delim y
      → length xs < n
      → before delim n (ended delim xs ++ y) ≡ none
  before-fewer [] y n AreUndelimited.nil u h = rw (append-nil y) at (before-line y [] n u)
  before-fewer (x ∷ xs) y n (AreUndelimited.cons k a) u h =
      let other : (n == 1) ≡ false = ground arith in
      let tail = ended delim xs ++ y in
      let more = before-fewer xs y (n - 1) a u (omega arith) in
      rw (append_assoc x (delim ∷ ended delim xs) y)
        (before-ended_line x tail n k other ∙ ap (behind (x ++ delim ∷ [])) more)

-- `\0` with `--zero-delimited`
abbrev pub delimiter : Bool → ℕ
delimiter zero_delim = if zero_delim then 0 else b'\n'

-- A file whose readable part has as many delimiters as lines are wanted, or more: exactly these lines
-- are printed, with the delimiters between them and a newline at the end, however the file is read. The output
-- takes all that is written.
pub read_lines-enough :
    (zero_delim : Bool) (es : List ReadEvent) (n : ℕ) (xs : List Bytes) (y rest w : Bytes)
    → readable es ≡ ended (delimiter zero_delim) xs ++ (y ++ delimiter zero_delim ∷ rest)
    → AreUndelimited (delimiter zero_delim) xs
    → Undelimited (delimiter zero_delim) y
    → n ≡ suc (length xs)
    → n < 2 ^ 31
    → read_lines es n zero_delim (open_output w)
      ≡ (exit_success, open_output ((w ++ (ended (delimiter zero_delim) xs ++ y)) ++ b'\n' ∷ []))
unfolding read_lines
read_lines-enough zero_delim es n xs y rest w e a u h k =
    let delim = delimiter zero_delim in
    let cut = before-enough delim xs y rest n a u h in
    let run = read_loop-printed delim es n w (omega arith) (omega arith) in rw (e, cut) at run

-- A file whose readable part has fewer delimiters than lines are wanted is printed as it is, with one
-- newline more behind it: also behind a last line that has its delimiter, and also after a read that failed.
read_lines-fewer :
    (zero_delim : Bool) (es : List ReadEvent) (n : ℕ) (xs : List Bytes) (y w : Bytes)
    → readable es ≡ ended (delimiter zero_delim) xs ++ y
    → AreUndelimited (delimiter zero_delim) xs
    → Undelimited (delimiter zero_delim) y
    → length xs < n
    → n < 2 ^ 31
    → read_lines es n zero_delim (open_output w)
      ≡ (exit_success, open_output ((w ++ readable es) ++ b'\n' ∷ []))
unfolding read_lines
read_lines-fewer zero_delim es n xs y w e a u h k =
    let delim = delimiter zero_delim in
    let cut = before-fewer delim xs y n a u h in
    let run = read_loop-printed delim es n w (omega arith) (omega arith) in
    rw e (rw (e, cut) at run)
