-- ===== src/Timeconst/Fixed.antt =====
-- `fmul`, `fmuls` and `fadj` of programs/bc4linux.c: fixed-point factors on 64-bit unsigned
-- integers. `none` stands for what C leaves undefined or what traps: a shift by 64 or more, a
-- division by zero, and (in the model only) a search of more than 64 rounds.
use punchcardos.Prelude.Maybe.{◌>>=◌}
use punchcardos.Prelude.{
  ℕ, zero, suc, ◌+◌, ◌-◌, ◌*◌, ◌/◌, ◌%◌, ◌^◌, Option, none, some, ltb, leb, ◌==◌, if◌then◌else◌,
}
use punchcardos.Timeconst.Gcd.{gcd}

abbrev pub u64_mod : ℕ
u64_mod = 18_446_744_073_709_551_616

-- Reduction of a result to `unsigned long long`.
unfoldable pub wrap : ℕ → ℕ
wrap x = x % u64_mod

-- 1ULL << b
unfoldable pub shift_one : ℕ → Option ℕ
shift_one b = if ltb b 64 then some (2 ^ b) else none

unfoldable pub divide : ℕ → ℕ → Option ℕ
divide a d = if d == 0 then none else some (a / d)

-- (((1ULL << b) * n) + d - 1ULL) / d
unfoldable pub fmul : ℕ → ℕ → ℕ → Option ℕ
unfolding shift_one divide wrap
fmul b n d = do one ← shift_one b; divide (wrap (wrap (wrap (one * n) + d) + u64_mod - 1)) d

-- The loop of `fmuls` from `s` on.
unfoldable pub fmuls_from : ℕ → ℕ → ℕ → ℕ → ℕ → Option ℕ
fmuls_from zero s b n d = none
fmuls_from (suc f) s b n d = do
  let rest = fmuls_from f (suc s) b n d
  m ← fmul s n d
  limit ← shift_one (wrap (b + u64_mod - 1))
  if leb limit m then some s else rest

unfoldable pub fmuls : ℕ → ℕ → ℕ → Option ℕ
unfolding fmuls_from fmul
fmuls b n d = fmuls_from 64 0 b n d

unfoldable pub fadj : ℕ → ℕ → ℕ → Option ℕ
unfolding shift_one divide wrap
fadj b n d = do
  d' ← divide d (gcd n d)
  one ← shift_one b
  divide (wrap (one * wrap (d' + u64_mod - 1))) d'
