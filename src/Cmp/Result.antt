-- ===== src/Cmp/Result.antt =====
-- programs/cmp.c: what `cmp` returns and prints for two named files.
use punchcardos.Cmp.Compare.{
  compared, compared_refl, compared-same, compared-difference, difference, Opened, verdict-sizes,
}
use punchcardos.Cmp.{
  Report, Verdict, same, trouble, differ, out_of_rounds, Flags, Files, initial, verdict, message,
  conclude, cmp, exit_same, exit_different,
}
use punchcardos.Prelude.{
  ℕ, ◌≤◌, ◌≡◌, ◌≢◌, ◌↔◌, refl, ◌∙◌, sym, ap, true, false, not, ◌&&◌, some, Bytes, ◌∷◌, ◌++◌, ◌==◌,
  length, length-append, arith, Bool-cases, inl, inr, ==_iff, ==_refl, codes, lt→ltb_false,
}
use punchcardos.Sys.{Output, returns, open_output, write}

-- Only the verdict `same` becomes the status 0.
conclude-same :
    (v : Verdict) (file1 file2 : Bytes) (flags : Flags) (o : Output)
    → (conclude v file1 file2 flags o).0 ≡ returns exit_same
    → v ≡ same
unfolding conclude
conclude-same same file1 file2 flags o h = refl
conclude-same trouble file1 file2 flags o h = ground arith
conclude-same out_of_rounds file1 file2 flags o h = ground arith
conclude-same (differ r) file1 file2 flags o h = ground arith

verdict-same :
    (fs : Files) (file1 file2 xs ys : Bytes) (r : Report)
    → Opened fs file1 file2 xs ys
    → verdict fs file1 file2 r ≡ same
    → xs ≡ ys
verdict-same fs file1 file2 xs ys r o h =
    let hs = sym (verdict-sizes fs file1 file2 xs ys r o) ∙ h in
    elim (Bool-cases (length xs == length ys)) [
      | inl e ↦ compared-same xs ys r (ground arith)
      | inr e ↦ ground arith
    ]

verdict_refl :
    (fs : Files) (file1 file2 xs ys : Bytes) (r : Report)
    → Opened fs file1 file2 xs ys
    → xs ≡ ys
    → verdict fs file1 file2 r ≡ same
verdict_refl fs file1 file2 xs ys r o h =
    let e : compared xs ys r ≡ same = ap (λ l. compared xs l r) (sym h) ∙ compared_refl xs r in
    let n : (length xs == length ys) ≡ true =
      ap (λ l. length xs == length l) (sym h) ∙ ==_refl (length xs) in
    verdict-sizes fs file1 file2 xs ys r o ∙ rw n e

-- For two names that can be opened and read, `cmp` ends with the status 0 exactly for files of the
-- same contents, whatever the flags and however the report can be written.
pub cmp-same :
    (g1 g2 : ℕ) (fs : Files) (file1 file2 xs ys : Bytes) (flags : Flags) (o : Output)
    → Opened fs file1 file2 xs ys
    → ((cmp g1 g2 fs (some file1) (some file2) flags o).0 ≡ returns exit_same) ↔ (xs ≡ ys)
unfolding cmp conclude
cmp-same g1 g2 fs file1 file2 xs ys flags o w = (
  λ h.
      verdict-same fs file1 file2 xs ys (initial g1 g2) w
        (conclude-same (verdict fs file1 file2 (initial g1 g2)) file1 file2 flags o h),
  λ e.
      ap (λ v. (conclude v file1 file2 flags o).0)
        (verdict_refl fs file1 file2 xs ys (initial g1 g2) w e),
)

long :
    (x y rest t : Bytes)
    → 10 ≤ length ((x ++ (b' ' ∷ (y ++ (codes " differ: byte " ++ rest)))) ++ t)
long x y rest t = omega (
  arith,
  length-append (x ++ (b' ' ∷ (y ++ (codes " differ: byte " ++ rest)))) t,
  length-append x (b' ' ∷ (y ++ (codes " differ: byte " ++ rest))),
  length-append y (codes " differ: byte " ++ rest),
)

-- A report is long enough for the check of what `printf` returns.
length-message :
    (file1 file2 : Bytes) (flags : Flags) (r : Report) → 10 ≤ length (message file1 file2 flags r)
unfolding message
length-message file1 file2 flags r =
    elim (Bool-cases (flags.print_bytes && (not (r.c1 == 0) && not (r.c2 == 0)))) [
      | inl e ↦ rw e (long _ _ _ _)
      | inr e ↦ rw e (long _ _ _ _)
    ]

conclude-differ :
    (r : Report) (file1 file2 : Bytes) (flags : Flags) (w : Bytes)
    → flags.silent ≡ false
    → conclude (differ r) file1 file2 flags (open_output w)
      ≡ (returns exit_different, open_output (w ++ message file1 file2 flags r))
unfolding conclude write
conclude-differ r file1 file2 flags w s =
    let size =
      lt→ltb_false (length (message file1 file2 flags r)) 10 (length-message file1 file2 flags r) in
    rw (s, size) refl

-- For two files of the same size with a first difference behind the beginning `p`, unless `-s` is
-- given: the status 1, and a report of the two bytes, the line, counted from 1, and two more than
-- the number of bytes before.
pub cmp-difference :
    (g1 g2 : ℕ) (fs : Files) (file1 file2 p xs ys : Bytes) (a b : ℕ) (flags : Flags) (w : Bytes)
    → a ≢ b
    → length xs ≡ length ys
    → flags.silent ≡ false
    → Opened fs file1 file2 (p ++ a ∷ xs) (p ++ b ∷ ys)
    → cmp g1 g2 fs (some file1) (some file2) flags (open_output w) ≡ (
      returns exit_different,
      open_output (w ++ message file1 file2 flags (difference p a b (initial g1 g2))),
    )
unfolding cmp conclude
cmp-difference g1 g2 fs file1 file2 p xs ys a b flags w n l s o =
    let r : Report = difference p a b (initial g1 g2) in
    let sizes : (length (p ++ a ∷ xs) == length (p ++ b ∷ ys)) ≡ true =
      (==_iff (length (p ++ a ∷ xs)) (length (p ++ b ∷ ys))).1
        (omega (arith, length-append p (a ∷ xs), length-append p (b ∷ ys), l)) in
    let v : verdict fs file1 file2 (initial g1 g2) ≡ differ r =
      verdict-sizes fs file1 file2 (p ++ a ∷ xs) (p ++ b ∷ ys) (initial g1 g2) o
      ∙ rw sizes (compared-difference p xs ys a b (initial g1 g2) n) in
    ap (λ d. conclude d file1 file2 flags (open_output w)) v
    ∙ conclude-differ r file1 file2 flags w s
