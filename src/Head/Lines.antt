-- ===== src/Head/Lines.antt =====
-- What read_lines of programs/head.c prints, however the file is read.
use punchcardos.Head.Cut.{
  before, left, consed, before-other, left-other, before-last, before-earlier, left-delim,
  scan-before, Front, before-Front,
}
use punchcardos.Head.{found, through, last_part, on_scan, read_loop}
use punchcardos.Prelude.{
  ℕ, ◌+◌, ◌-◌, ◌^◌, ◌<◌, ◌≤◌, ◌≡◌, refl, ap, ◌∙◌, List, [], ◌∷◌, ◌++◌, Bytes, Option, none, some,
  length, take, ◌==◌, ==_refl, Bool-cases, inl, inr, Option-cases, append_assoc, append-nil, arith,
}
use punchcardos.Sys.Reads.{readable}
use punchcardos.Sys.{ReadEvent, got, failed, Output, open_output, write, exit_success}

abbrev or_else : Option Bytes → Option Bytes → Option Bytes
or_else none b = b
or_else (some p) b = some p

abbrev pub behind : Bytes → Option Bytes → Option Bytes
behind xs none = none
behind xs (some p) = some (xs ++ p)

abbrev pub or_all : Bytes → Option Bytes → Bytes
or_all s none = s
or_all s (some p) = p

or_else-consed :
    (c : ℕ) (xs : Bytes) (a b : Option Bytes)
    → consed c (or_else a (behind xs b)) ≡ or_else (consed c a) (behind (c ∷ xs) b)
or_else-consed c xs none none = refl
or_else-consed c xs none (some p) = refl
or_else-consed c xs (some p) b = refl

consed-none : (c : ℕ) (b : Option Bytes) → consed c b ≡ none → b ≡ none
consed-none c none h = refl
consed-none c (some p) h = cc

module _ (delim : ℕ) where
  before-append :
      (xs ys : Bytes) (n : ℕ)
      → before delim n (xs ++ ys)
        ≡ or_else (before delim n xs) (behind xs (before delim (left delim n xs) ys))
  before-append [] ys n = nothing_behind (before delim n ys)
    where
      nothing_behind : (b : Option Bytes) → b ≡ behind [] b
      nothing_behind none = refl
      nothing_behind (some p) = refl
  before-append (c ∷ xs) ys n = elim (Bool-cases (c == delim)) [
    | inr e ↦
        rw
          (
            before-other delim c xs n e,
            before-other delim c (xs ++ ys) n e,
            left-other delim c xs n e,
          )
          (ap (consed c) (before-append xs ys n)
            ∙ or_else-consed c xs (before delim n xs) (before delim (left delim n xs) ys))
    | inl e ↦ elim (Bool-cases (n == 1)) [
      | inl one ↦ rw (before-last delim c xs n e one, before-last delim c (xs ++ ys) n e one) refl
      | inr other ↦
          rw
            (
              before-earlier delim c xs n e other,
              before-earlier delim c (xs ++ ys) n e other,
              left-delim delim c xs n e,
            )
            (ap (consed c) (before-append xs ys (n - 1))
              ∙ or_else-consed c xs (before delim (n - 1) xs)
                  (before delim (left delim (n - 1) xs) ys))
    ]
  ]

  left-bounds :
      (xs : Bytes) (n : ℕ)
      → 0 < n
      → before delim n xs ≡ none
      → (0 < left delim n xs) × (left delim n xs ≤ n)
  left-bounds [] n h b = (h, omega arith)
  left-bounds (c ∷ xs) n h b = elim (Bool-cases (c == delim)) [
    | inr e ↦
        let none_before = consed-none c _ (rw (before-other delim c xs n e) at b) in
        rw (left-other delim c xs n e) (left-bounds xs n h none_before)
    | inl e ↦ elim (Bool-cases (n == 1)) [
      | inl one ↦ let wrong : some [] ≡ none = rw (before-last delim c xs n e one) at b in cc
      | inr other ↦
          let none_before = consed-none c _ (rw (before-earlier delim c xs n e other) at b) in
          let more = left-bounds xs (n - 1) (ground arith) none_before in
          rw (left-delim delim c xs n e) (more.0, omega (arith, more.1))
    ]
  ]

or_all-behind :
    (xs ys : Bytes) (b : Option Bytes) → or_all (xs ++ ys) (behind xs b) ≡ xs ++ or_all ys b
or_all-behind xs ys none = refl
or_all-behind xs ys (some p) = refl

-- The bytes that are printed of a text when n lines are wanted: without the last delimiter, or the whole
-- text if it has fewer.
abbrev pub printed : ℕ → ℕ → Bytes → Bytes
printed delim n s = or_all s (before delim n s)

last_part-open :
    (part w : Bytes)
    → last_part part (open_output w) ≡ (exit_success, open_output ((w ++ part) ++ b'\n' ∷ []))
unfolding last_part write
last_part-open part w = rw (==_refl (length part)) refl

on_scan-found :
    (buf p w : Bytes) (again : ℕ → Output → ℕ × Output)
    → take (length p) buf ≡ p
    → on_scan buf (open_output w) (found (0 + length p)) again
      ≡ (exit_success, open_output ((w ++ p) ++ b'\n' ∷ []))
unfolding on_scan
on_scan-found buf p w again h =
    let n : 0 + length p ≡ length p = omega arith in rw n (rw h (last_part-open p w))

on_scan-through :
    (buf w : Bytes) (n : ℕ) (again : ℕ → Output → ℕ × Output)
    → on_scan buf (open_output w) (through n) again ≡ again n (open_output (w ++ buf))
unfolding on_scan write
on_scan-through buf w n again = rw (==_refl (length buf)) refl

module _ (delim : ℕ) where
  pub read_loop-printed :
      (es : List ReadEvent) (n : ℕ) (w : Bytes)
      → 0 < n
      → n < 2 ^ 32
      → read_loop delim es n (open_output w)
        ≡ (exit_success, open_output ((w ++ printed delim n (readable es)) ++ b'\n' ∷ []))
  unfolding read_loop write Front
  read_loop-printed [] n w h k = rw (append-nil w) refl
  read_loop-printed (failed ∷ es) n w h k = rw (append-nil w) refl
  read_loop-printed (got [] ∷ es) n w h k = rw (append-nil w) refl
  read_loop-printed (got (c ∷ bytes) ∷ es) n w h k =
      let buf = c ∷ bytes in
      let again : ℕ → Output → ℕ × Output = λ n' o'. read_loop delim es n' o' in
      let scanned = scan-before delim buf 0 n h k in
      let joined = before-append delim buf (readable es) n in
      elim (Option-cases (before delim n buf)) [
        | inr (p, e) ↦
            let part : take (length p) buf ≡ p = rw e at (before-Front delim buf n) in
            let whole : before delim n (buf ++ readable es) ≡ some p = rw e at joined in
            rw (scanned, e, whole) (on_scan-found buf p w again part)
        | inl e ↦
            let m = left delim n buf in
            let bounds = left-bounds delim buf n h e in
            let b = before delim m (readable es) in
            let later : before delim n (buf ++ readable es) ≡ behind buf b = rw e at joined in
            let whole : printed delim n (buf ++ readable es)
                ≡ buf ++ printed delim m (readable es) =
              ap (or_all (buf ++ readable es)) later ∙ or_all-behind buf (readable es) b in
            let more = read_loop-printed es m (w ++ buf) bounds.0 (omega (arith, bounds.1)) in
            rw (scanned, e, whole)
              (on_scan-through buf w m again
                ∙ rw (append_assoc w buf (printed delim m (readable es))) at more)
      ]
