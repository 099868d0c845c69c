-- ===== src/Cut/Select/Flag.antt =====
-- The flag of `-s` and `--only-delimited` in `cut_fields` of programs/cut.c.
use mathlib.Core.Path.{fun_ext}
use punchcardos.Cut.Ranges.{Range}
use punchcardos.Cut.Select.Split.{and_false}
use punchcardos.Cut.Select.{
  Step, Io, next, lower, upper, end_field, fields_loop, cut_fields_line, cut_fields,
}
use punchcardos.Prelude.{
  ℕ, suc, ◌≡◌, refl, Bool, true, false, not, ◌==◌, if◌then◌else◌, ==_ne, inl, inr, Bool-cases,
  Bytes, [], ◌∷◌, ◌++◌, arith,
}
use punchcardos.Sys.{Output, returns, exits, undefined, out_of_fuel}

-- Two continuations that agree behind a positive number of fields.
abbrev AgreeOnSuc : (ℕ → Output → Step (Unit {0})) → (ℕ → Output → Step (Unit {0})) → Type 0
AgreeOnSuc f g = (n : ℕ) (o : Output) → f (suc n) o ≡ g (suc n) o

module _ (f g : ℕ → Output → Step (Unit {0})) (agree : AgreeOnSuc f g) where
  after_last :
      (field : ℕ) (r : Step Bool)
      → next (next r (λ _ o'. (returns (suc field), o'))) f
        ≡ next (next r (λ _ o'. (returns (suc field), o'))) g
  after_last field (returns a, o) = agree field o
  after_last field (exits n, o) = refl
  after_last field (undefined, o) = refl
  after_last field (out_of_fuel, o) = refl

  after_more :
      (k : Bool → Output → Step ℕ) (r : Step Bool)
      → ((b : Bool) (o : Output) → next (k b o) f ≡ next (k b o) g)
      → next (next r k) f ≡ next (next r k) g
  after_more k (returns a, o) h = h a o
  after_more k (exits n, o) h = refl
  after_more k (undefined, o) h = refl
  after_more k (out_of_fuel, o) h = refl

  next-fields_loop :
      (line : Bytes) (start end idel odel field : ℕ) (wrote : Bool) (text : Bytes) (o : Output)
      → next (fields_loop start end idel odel field wrote text line o) f
        ≡ next (fields_loop start end idel odel field wrote text line o) g
  unfolding fields_loop
  next-fields_loop [] start end idel odel field wrote text o =
      after_last field (end_field start end odel field wrote text o)
  next-fields_loop (c ∷ line) start end idel odel field wrote text o =
      elim (Bool-cases (c == idel)) [
        | inl d ↦ rw d (
            after_more _ (end_field start end odel field wrote text o)
              (λ b o'. next-fields_loop line start end idel odel (suc field) b [] o'))
        | inr d ↦ rw d (next-fields_loop line start end idel odel field wrote (text ++ c ∷ []) o)
      ]

cut_fields_line-flag :
    (start end delim idel odel : ℕ) (flag : Bool)
    → cut_fields_line start end delim flag idel odel
      ≡ cut_fields_line start end delim true idel odel
unfolding cut_fields_line
cut_fields_line-flag start end delim idel odel flag = fun_ext (λ line. fun_ext (λ o.
    next-fields_loop _ _ (λ n o'. rw (==_ne (suc n) 0 (λ z. omega arith), and_false (not flag)))
      line start end idel odel 0 false [] o))

-- The flag changes nothing: for every input and output, a run with it is the run without it.
cut_fields-only_delim :
    (garbage idel odel : ℕ) (zero_term flag : Bool) (range : Range) (io : Io)
    → cut_fields garbage (record { zero_term = zero_term; only_delim = flag }) idel odel range io
      ≡ cut_fields garbage (record { zero_term = zero_term; only_delim = true }) idel odel range io
unfolding cut_fields
cut_fields-only_delim garbage idel odel zero_term flag range io =
    let d : ℕ = if zero_term then 0 else b'\n' in
    rw (cut_fields_line-flag (lower range) (upper range) d idel odel flag) refl
