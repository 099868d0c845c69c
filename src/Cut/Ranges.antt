-- ===== src/Cut/Ranges.antt =====
-- `parse_range` of programs/cut.c. Zero is `BOUND_UNSET`.
pub mod Numerals
use punchcardos.Prelude.Maybe.{◌>>=◌}
use punchcardos.Prelude.{
  ℕ, ◌-◌, Option, none, some, Bytes, [], ◌∷◌, ltb, ◌==◌, if◌then◌else◌, is_digit, deref,
}
use punchcardos.Timeconst.Decimal.{atoi}

pub record Range : Type 0 where
  pub start : ℕ
  pub end : ℕ

abbrev pub bound_unset : ℕ
bound_unset = 0

abbrev pub unset_range : Range
unset_range = record { start = bound_unset; end = bound_unset }

-- strchr(s, '-'): what stands behind the first dash.
unfoldable pub after_dash : Bytes → Option Bytes
after_dash [] = none
after_dash (c ∷ s) = let rest = after_dash s in if c == b'-' then some s else rest

-- Bounds count from 1; the start is turned to count from 0.
unfoldable pub zero_based : Range → Range
zero_based r = if ltb 0 r.start then record r { start = r.start - 1 } else r

parse_single : Bytes → Option Range
parse_single s =
    let n = atoi s >>= (λ v. some (record { start = v; end = v })) in
    if is_digit (deref s) then n else some unset_range

-- A dash in front, at the end, or between two numbers.
parse_dashed : Bytes → Bytes → Option Range
parse_dashed s behind =
    if deref s == b'-'
    then (do v ← atoi behind; some (record { start = bound_unset; end = v }))
    else if deref behind == 0
    then (do v ← atoi s; some (record { start = v; end = bound_unset }))
    else (do v ← atoi s; w ← atoi behind; some (record { start = v; end = w }))

parse_bounds : Bytes → Option Bytes → Option Range
unfolding parse_single parse_dashed
parse_bounds s none = parse_single s
parse_bounds s (some behind) = parse_dashed s behind

-- `none` as the argument is a null pointer; as the result, the overflow of an `int`.
unfoldable pub parse_range : Option Bytes → Option Range
unfolding parse_bounds zero_based after_dash atoi
parse_range none = some unset_range
parse_range (some []) = some unset_range
parse_range (some (c ∷ s)) = do r ← parse_bounds (c ∷ s) (after_dash (c ∷ s)); some (zero_based r)
