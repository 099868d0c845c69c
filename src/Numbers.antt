-- ===== src/Numbers.antt =====
-- Sizes with a unit, as programs/truncate.c and programs/dd.c read them: their two functions differ
-- in the letter for 1024.
pub mod Numerals
use punchcardos.Prelude.{
  ℕ, ◌+◌, ◌-◌, ◌*◌, Option, none, some, Bytes, [], ◌∷◌, leb, ◌==◌, if◌then◌else◌, is_digit, deref,
}

-- `LONG_MAX`
abbrev pub long_max : ℕ
long_max = 9_223_372_036_854_775_807

-- The return value: a size, -1, or the overflow of a `long`, which is undefined.
pub data Parsed : Type 0 where
  size : ℕ → Parsed
  illegal : Parsed
  overflow : Parsed

-- while (isdigit(*cp)) value = value * 10 + *cp++ - '0': the value and the rest of the string.
unfoldable pub digits : ℕ → Bytes → Option (ℕ × Bytes)
digits value [] = some (value, [])
digits value (c ∷ s) =
    let more = digits (value * 10 + c - b'0') s in
    if is_digit c
    then (if leb (value * 10 + c) long_max then more else none)
    else some (value, c ∷ s)

-- value *= unit, and nothing may follow the letter.
scaled : ℕ → ℕ → Bytes → Parsed
scaled value unit [] = if leb (value * unit) long_max then size (value * unit) else overflow
scaled value unit (c ∷ s) = if leb (value * unit) long_max then illegal else overflow

-- switch (*cp++)
unfoldable pub with_unit : ℕ → ℕ → Bytes → Parsed
unfolding scaled
with_unit kilo value [] = size value
with_unit kilo value (c ∷ s) =
    if c == b'G'
    then scaled value 1_073_741_824 s
    else if c == b'M'
    then scaled value 1_048_576 s
    else if c == kilo
    then scaled value 1_024 s
    else if c == b'b'
    then scaled value 512 s
    else if c == b'w'
    then scaled value 2 s
    else illegal

behind_digits : ℕ → Option (ℕ × Bytes) → Parsed
unfolding with_unit
behind_digits kilo none = overflow
behind_digits kilo (some (value, rest)) = with_unit kilo value rest

unfoldable pub parse_number : ℕ → Bytes → Parsed
unfolding behind_digits digits
parse_number kilo s = if is_digit (deref s) then behind_digits kilo (digits 0 s) else illegal
