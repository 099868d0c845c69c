-- ===== src/Head/Cut.antt =====
-- The part of a text before the delimiter of a line, and how the loop of programs/head.c finds it.
use punchcardos.Head.{Scan, found, through, decrement, scan}
use punchcardos.Prelude.{
  ℕ, ◌+◌, ◌-◌, ◌^◌, ◌<◌, ◌≡◌, ◌≢◌, refl, sym, ap, ◌∙◌, true, false, List, [], ◌∷◌, ◌++◌, Bytes,
  Option, none, some, length, take, ◌==◌, if◌then◌else◌, Bool-cases, inl, inr, arith,
}

-- Without a delimiter.
pub data Undelimited (delim : ℕ) : Bytes → Type 0 where
  nil : Undelimited delim []
  cons : {c : ℕ} {s : Bytes} → c ≢ delim → Undelimited delim s → Undelimited delim (c ∷ s)

pub data AreUndelimited (delim : ℕ) : List Bytes → Type 0 where
  nil : AreUndelimited delim []
  cons :
      {x : Bytes} {xs : List Bytes}
      → Undelimited delim x
      → AreUndelimited delim xs
      → AreUndelimited delim (x ∷ xs)

-- These lines, each with the delimiter behind it.
abbrev pub ended : ℕ → List Bytes → Bytes
ended delim [] = []
ended delim (x ∷ xs) = x ++ delim ∷ ended delim xs

abbrev pub consed : ℕ → Option Bytes → Option Bytes
consed c none = none
consed c (some s) = some (c ∷ s)

-- What is before the n-th delimiter, if there are so many.
abbrev pub before : ℕ → ℕ → Bytes → Option Bytes
before delim n [] = none
before delim n (c ∷ s) = elim (c == delim) [
  | false ↦ consed c (before delim n s)
  | true ↦ elim (n == 1) [ true ↦ some [] | false ↦ consed c (before delim (n - 1) s) ]
]

-- How many delimiters are still to come, when there are fewer.
abbrev pub left : ℕ → ℕ → Bytes → ℕ
left delim n [] = n
left delim n (c ∷ s) = elim (c == delim) [ false ↦ left delim n s | true ↦ left delim (n - 1) s ]

abbrev pub outcome : ℕ → ℕ → Option Bytes → Scan
outcome i n (some p) = found (i + length p)
outcome i n none = through n

decrement-positive : (n : ℕ) → 0 < n → n < 2 ^ 32 → decrement n ≡ n - 1
decrement-positive n h k = omega arith

outcome-consed : (i n c : ℕ) (b : Option Bytes) → outcome i n (consed c b) ≡ outcome (i + 1) n b
outcome-consed i n c none = refl
outcome-consed i n c (some p) = ap found (omega arith)

-- One byte more in front: it is no delimiter, the last delimiter that is wanted, or an earlier one.
module _ (delim c : ℕ) (s : Bytes) (n : ℕ) where
  pub before-other : (c == delim) ≡ false → before delim n (c ∷ s) ≡ consed c (before delim n s)
  before-other e = rw (e, before) refl

  pub left-other : (c == delim) ≡ false → left delim n (c ∷ s) ≡ left delim n s
  left-other e = rw (e, left) refl

  pub before-last : (c == delim) ≡ true → (n == 1) ≡ true → before delim n (c ∷ s) ≡ some []
  before-last e one = rw (e, before) (rw one refl)

  pub before-earlier :
      (c == delim) ≡ true
      → (n == 1) ≡ false
      → before delim n (c ∷ s) ≡ consed c (before delim (n - 1) s)
  before-earlier e other = rw (e, before) (rw other refl)

  pub left-delim : (c == delim) ≡ true → left delim n (c ∷ s) ≡ left delim (n - 1) s
  left-delim e = rw (e, left) refl

module _ (delim : ℕ) where
  scan-steps :
      (c : ℕ) (s : Bytes) (i n : ℕ)
      → (c == delim) ≡ true
      → scan delim (c ∷ s) i n
        ≡ (if decrement n == 0 then found i else scan delim s (i + 1) (decrement n))
  unfolding scan
  scan-steps c s i n e = elim (Bool-cases (decrement n == 0)) [
    | inl z ↦ rw (e, scan) (rw z refl)
    | inr z ↦ rw (e, scan) (rw z refl)
  ]

  pub scan-before :
      (s : Bytes) (i n : ℕ)
      → 0 < n
      → n < 2 ^ 32
      → scan delim s i n ≡ outcome i (left delim n s) (before delim n s)
  unfolding scan
  scan-before [] i n h k = refl
  scan-before (c ∷ s) i n h k = elim (Bool-cases (c == delim)) [
    | inr e ↦
        let more = scan-before s (i + 1) n h k in
        rw (before-other delim c s n e, left-other delim c s n e)
          (rw (e, scan) (more ∙ sym (outcome-consed i (left delim n s) c (before delim n s))))
    | inl e ↦ elim (Bool-cases (n == 1)) [
      | inl one ↦
          let last : (decrement n == 0) ≡ true = ground arith in
          let here : i + 0 ≡ i = omega arith in
          rw (before-last delim c s n e one, scan-steps c s i n e, last, here) refl
      | inr other ↦
          let step = decrement-positive n h k in
          let goes_on : (n - 1 == 0) ≡ false = ground arith in
          let more = scan-before s (i + 1) (n - 1) (ground arith) (omega arith) in
          rw
            (
              before-earlier delim c s n e other,
              left-delim delim c s n e,
              scan-steps c s i n e,
              step,
              goes_on,
            )
            (more ∙ sym (outcome-consed i (left delim (n - 1) s) c (before delim (n - 1) s)))
    ]
  ]

  -- What is before the delimiter is a first part of the text.
  unfoldable pub Front : Bytes → Option Bytes → Type 0
  Front s none = Unit
  Front s (some p) = take (length p) s ≡ p

  consed-Front : (c : ℕ) (s : Bytes) (b : Option Bytes) → Front s b → Front (c ∷ s) (consed c b)
  unfolding Front
  consed-Front c s none h = tt
  consed-Front c s (some p) h = ap (◌∷◌ c) h

  pub before-Front : (s : Bytes) (n : ℕ) → Front s (before delim n s)
  unfolding Front
  before-Front [] n = tt
  before-Front (c ∷ s) n = elim (Bool-cases (c == delim)) [
    | inr e ↦ rw (before-other delim c s n e) (consed-Front c s _ (before-Front s n))
    | inl e ↦ elim (Bool-cases (n == 1)) [
      | inl one ↦ rw (before-last delim c s n e one) refl
      | inr other ↦
          rw (before-earlier delim c s n e other) (consed-Front c s _ (before-Front s (n - 1)))
    ]
  ]
