-- ===== src/Timeconst/Bounds.antt =====
-- The shifts of `fmuls` of programs/bc4linux.c, and the factors that `fmul` computes with them.
use native.Mathlib.Nat.{pow-suc, mod-eq_of_lt, div-lt_iff_lt-mul}
use punchcardos.Prelude.{
  ℕ, zero, suc, ◌+◌, ◌-◌, ◌*◌, ◌/◌, ◌^◌, ◌≤◌, ◌<◌, ◌≡◌, ◌∙◌, refl, ap, Option, some, leb,
  if◌then◌else◌, lt→ltb, le→leb, lt→leb_false, dec_lt, arith,
}
use punchcardos.Timeconst.Fixed.{u64_mod, wrap, shift_one, fmul, fmuls_from, fmuls}

-- n * 2^s / d rounded up, in unbounded arithmetic.
abbrev pub scaled : ℕ → ℕ → ℕ → ℕ
scaled s n d = (2 ^ s * n + d - 1) / d

pub wrap_small : (x : ℕ) → x < u64_mod → wrap x ≡ x
unfolding wrap
wrap_small x h = mod-eq_of_lt h

pub wrap_bound : (x : ℕ) → wrap x < u64_mod
unfolding wrap
wrap_bound x = omega arith

pub wrap_pred : (x : ℕ) → 0 < x → x < u64_mod → wrap (x + u64_mod - 1) ≡ x - 1
unfolding wrap
wrap_pred x p h = omega arith

pub fmul-scaled :
    (s n d : ℕ) → s < 64 → 0 < d → 2 ^ s * n + d < u64_mod → fmul s n d ≡ some (scaled s n d)
unfolding fmul
fmul-scaled s n d h p small = rw (lt→ltb s 64 h) (
    rw (wrap_small (2 ^ s * n) (omega arith)) (
      rw (wrap_small (2 ^ s * n + d) small)
        (rw (wrap_pred (2 ^ s * n + d) (omega arith) small) (ground arith))))

-- The shift `s` is the least one whose factor reaches 2^31; that factor stays below 2^32.
pub record IsNormal (n d s : ℕ) : Type 0 where
  pub in_range : s ≤ 62
  pub reaches : 2_147_483_648 ≤ scaled s n d
  pub fits : scaled s n d < 4_294_967_296
  pub least : (t : ℕ) → t < s → scaled t n d < 2_147_483_648
  pub exact : fmul s n d ≡ some (scaled s n d)

module _ (n d : ℕ) (n_pos : 0 < n) (d_pos : 0 < d) (d_bound : d < 2_147_483_648) where
  scaled-fits : (x : ℕ) → x ≤ 4_294_967_294 * d → (x + d - 1) / d < 4_294_967_296
  scaled-fits x h = (div-lt_iff_lt-mul d_pos).1 (omega arith)

  scaled-le : (x : ℕ) → (x + d - 1) / d < 2_147_483_648 → x ≤ 2_147_483_647 * d
  scaled-le x h = let e = (div-lt_iff_lt-mul d_pos).0 h in omega arith

  scaled-exact : (s : ℕ) → s ≤ 62 → 2 ^ s * n ≤ 4_294_967_294 * d → fmul s n d ≡ some (scaled s n d)
  scaled-exact s h x = fmul-scaled s n d (omega arith) d_pos (omega arith)

  -- The shift 62 reaches 2^31, whatever the numbers.
  reaches_at_end : (s : ℕ) → s ≡ 62 → ¬ (scaled s n d < 2_147_483_648)
  reaches_at_end s e h =
      let big : 2 ^ s ≡ 4_611_686_018_427_387_904 = ap (λ (t : ℕ). 2 ^ t) e in
      let low : 2 ^ s * 1 ≤ 2 ^ s * n = grind arith in
      absurd (omega (arith, scaled-le (2 ^ s * n) h))

  fmuls_from-step :
      (f s : ℕ)
      → s ≤ 62
      → 2 ^ s * n ≤ 4_294_967_294 * d
      → fmuls_from (suc f) s 32 n d
        ≡ (if leb 2_147_483_648 (scaled s n d) then some s else fmuls_from f (suc s) 32 n d)
  unfolding fmuls_from shift_one wrap
  fmuls_from-step f s h x = rw (scaled-exact s h x)

  IsNormal-here :
      (s : ℕ)
      → s ≤ 62
      → 2 ^ s * n ≤ 4_294_967_294 * d
      → ((t : ℕ) → t < s → scaled t n d < 2_147_483_648)
      → 2_147_483_648 ≤ scaled s n d
      → IsNormal n d s
  IsNormal-here s h x below done = record {
    in_range = h;
    reaches = done;
    fits = scaled-fits (2 ^ s * n) x;
    least = below;
    exact = scaled-exact s h x;
  }

  below-suc :
      (s : ℕ)
      → ((t : ℕ) → t < s → scaled t n d < 2_147_483_648)
      → scaled s n d < 2_147_483_648
      → (t : ℕ) → t < suc s
      → scaled t n d < 2_147_483_648
  below-suc s below here t h = elim (dec_lt t s) [
    | yes p ↦ below t p
    | no p ↦ let e : t ≡ s = omega arith in rw e here
  ]

  bound-suc : (s : ℕ) → scaled s n d < 2_147_483_648 → 2 ^ suc s * n ≤ 4_294_967_294 * d
  bound-suc s h = rw pow-suc (omega (arith, scaled-le (2 ^ s * n) h))

  fmuls_from-IsNormal :
      (k f s : ℕ)
      → s + k ≡ 62
      → k < f
      → 2 ^ s * n ≤ 4_294_967_294 * d
      → ((t : ℕ) → t < s → scaled t n d < 2_147_483_648)
      → (r : ℕ) × (fmuls_from f s 32 n d ≡ some r) × IsNormal n d r
  fmuls_from-IsNormal k zero s e h x below = absurd (omega arith)
  fmuls_from-IsNormal zero (suc f) s e h x below =
      let done : 2_147_483_648 ≤ scaled s n d = elim (dec_lt (scaled s n d) 2_147_483_648) [
        | yes p ↦ absurd (reaches_at_end s (omega arith) p)
        | no p ↦ omega arith
      ] in
      (
        s,
        fmuls_from-step f s (omega arith) x ∙ rw (le→leb _ _ done),
        IsNormal-here s (omega arith) x below done,
      )
  fmuls_from-IsNormal (suc k) (suc f) s e h x below = elim (dec_lt (scaled s n d) 2_147_483_648) [
    | yes p ↦
        let (r, found, normal) =
          fmuls_from-IsNormal k f (suc s) (omega arith) (omega arith) (bound-suc s p)
            (below-suc s below p) in
        (r, fmuls_from-step f s (omega arith) x ∙ rw (lt→leb_false _ _ p) found, normal)
    | no p ↦ (
      s,
      fmuls_from-step f s (omega arith) x ∙ rw (le→leb 2_147_483_648 (scaled s n d) (omega arith)),
      IsNormal-here s (omega arith) x below (omega arith),
    )
  ]

-- The search ends, with a normal shift.
pub record FindsShift (n d : ℕ) (r : Option ℕ) : Type 0 where
  pub shift : ℕ
  pub found : r ≡ some shift
  pub normal : IsNormal n d shift

-- For a numerator and a denominator of 1 up to 2^31 - 1 the endless loop of `fmuls` ends, with the
-- least shift that makes the factor of 32 bits; no step of it shifts too far, traps or wraps.
pub fmuls-IsNormal :
    (n d : ℕ)
    → 0 < n
    → n < 2_147_483_648
    → 0 < d
    → d < 2_147_483_648
    → FindsShift n d (fmuls 32 n d)
unfolding fmuls
fmuls-IsNormal n d n_pos n_bound d_pos d_bound =
    let (s, e, normal) =
      fmuls_from-IsNormal n d n_pos d_pos d_bound 62 64 0 refl (omega arith) (omega arith)
        (λ t h. elim h [ ]) in
    record { shift = s; found = e; normal = normal }
