-- ===== src/Timeconst/Emit/Text.antt =====
-- The pieces of `timeconst` of programs/bc4linux.c on an output that takes everything.
use native.Mathlib.Nat.{div-le_self}
use punchcardos.Prelude.{
  ℕ, ◌-◌, ◌*◌, ◌/◌, ◌^◌, ◌<◌, ◌≡◌, refl, some, Bytes, [], ◌∷◌, ◌++◌, append_assoc, length, codes,
  arith,
}
use punchcardos.Sys.{open_output, write, returns}
use punchcardos.Timeconst.Adjust.{adjust, fadj-adjust, divide_pos}
use punchcardos.Timeconst.Bounds.{scaled, IsNormal, wrap_bound}
use punchcardos.Timeconst.Decimal.Print.{itoa-IsDecimal}
use punchcardos.Timeconst.Decimal.{itoa}
use punchcardos.Timeconst.Emit.{Run, ◌>>=◌, ◌>>◌, compute, put, define, macro, factor, ratio}
use punchcardos.Timeconst.Fixed.{u64_mod, wrap}
use punchcardos.Timeconst.Gcd.{gcd}

-- The step writes `text`, whatever has been written before, and goes on.
pub record Writes (m : Run (Unit {0})) (text : Bytes) : Type 0 where
  pub on_open : (w : Bytes) → m (open_output w) ≡ (returns tt, open_output (w ++ text))

put_open :
    (x : Bytes)
    → 0 < length x
    → (w : Bytes) → put x (open_output w) ≡ (returns tt, open_output (w ++ x))
unfolding put write
put_open [] h w = elim h [ ]
put_open (c ∷ x) h w = refl

pub Writes-put : (x : Bytes) → 0 < length x → Writes (put x) x
Writes-put x h = record { on_open = put_open x h }

module _ {m k : Run (Unit {0})} {t u : Bytes} where
  pub Writes-seq : Writes m t → Writes k u → Writes (m >> k) (t ++ u)
  unfolding ◌>>◌
  Writes-seq hm hk = record {
    on_open = λ w. rw (hm.on_open w) (rw (hk.on_open (w ++ t)) (rw append_assoc));
  }

-- A line of the file.
abbrev pub line : Bytes → ℕ → Bytes → Bytes
line name v tail = name ++ (itoa v ++ tail)

-- A value that is there is handed on.
pub compute-some : {B : Type 0} (v : ℕ) (f : ℕ → Run B) → (compute (some v) >>= f) ≡ f v
unfolding compute ◌>>=◌
compute-some v f = refl

Writes-define :
    (name : Bytes) (v : ℕ) (tail : Bytes)
    → 0 < length name
    → v < u64_mod
    → 0 < length tail
    → Writes (define name (some v) tail) (line name v tail)
unfolding define
Writes-define name v tail hn hv ht = rw compute-some (
    Writes-seq (Writes-put name hn)
      (Writes-seq (Writes-put (itoa v) ((itoa-IsDecimal v hv).nonempty)) (Writes-put tail ht)))

-- The lines of `factor` and `ratio` begin with `#define`.
pub Writes-macro :
    (name ending tail : Bytes) (v : ℕ)
    → v < u64_mod
    → 0 < length tail
    → Writes (define (macro name ending) (some v) tail) (line (macro name ending) v tail)
Writes-macro name ending tail v hv ht = Writes-define (macro name ending) v tail (omega arith) hv ht

-- The three lines of a conversion by n / d with the shift `s`.
abbrev pub factor_text : Bytes → ℕ → ℕ → ℕ → Bytes
factor_text name s n d =
    line (macro name (codes "_MUL32\tU64_C(")) (scaled s n d) (codes ")\n")
    ++ (line (macro name (codes "_ADJ32\tU64_C(")) (adjust s n d) (codes ")\n")
        ++ line (macro name (codes "_SHR32\t")) s (codes "\n"))

adjust_small : (b n d : ℕ) → adjust b n d < u64_mod
adjust_small b n d =
    let w = wrap_bound (2 ^ b * (d / gcd n d - 1)) in
    omega (arith, div-le_self (wrap (2 ^ b * (d / gcd n d - 1))) (d / gcd n d))

pub Writes-factor :
    (name : Bytes) (s n d : ℕ)
    → 0 < d
    → d < u64_mod
    → IsNormal n d s
    → Writes (factor name s n d) (factor_text name s n d)
unfolding factor
Writes-factor name s n d p small i =
    rw (i.exact, fadj-adjust n d p s (omega (arith, i.in_range)) small)
      (Writes-seq (Writes-macro name _ _ (scaled s n d) (omega (arith, i.fits)) (omega arith)) (
        Writes-seq (Writes-macro name _ _ (adjust s n d) (adjust_small s n d) (omega arith))
          (Writes-macro name _ _ s (omega (arith, i.in_range)) (omega arith))))

-- The four lines of a pair of units.
abbrev pub ratio_text : Bytes → Bytes → ℕ → ℕ → ℕ → Bytes → Bytes
ratio_text forth back unit hz cd last =
    line (macro forth (codes "_NUM\t\t")) (unit / cd) (codes "\n")
    ++ (line (macro forth (codes "_DEN\t\t")) (hz / cd) (codes "\n")
        ++ (line (macro back (codes "_NUM\t\t")) (hz / cd) (codes "\n")
            ++ line (macro back (codes "_DEN\t\t")) (unit / cd) last))

pub Writes-ratio :
    (forth back last : Bytes) (unit hz cd : ℕ)
    → 0 < cd
    → unit < u64_mod
    → hz < u64_mod
    → 0 < length last
    → Writes (ratio forth back unit hz cd last) (ratio_text forth back unit hz cd last)
unfolding ratio
Writes-ratio forth back last unit hz cd p hu hh hl =
    let num : unit / cd < u64_mod = omega (arith, div-le_self unit cd) in
    let den : hz / cd < u64_mod = omega (arith, div-le_self hz cd) in
    rw (divide_pos unit cd p, divide_pos hz cd p)
      (Writes-seq (Writes-macro forth _ _ (unit / cd) num (omega arith)) (
        Writes-seq (Writes-macro forth _ _ (hz / cd) den (omega arith)) (
          Writes-seq (Writes-macro back _ _ (hz / cd) den (omega arith))
            (Writes-macro back _ last (unit / cd) num hl))))
