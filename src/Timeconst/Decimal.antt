-- ===== src/Timeconst/Decimal.antt =====
-- `itoa` and `atoi` of programs/bc4linux.c, in the build without a C library.
pub mod Print
pub mod Scan
use punchcardos.Prelude.{
  ℕ, zero, suc, ◌+◌, ◌-◌, ◌*◌, ◌||◌, Option, some, none, Bytes, [], ◌∷◌, ◌++◌, leb, ltb, ◌==◌,
  if◌then◌else◌, length, is_digit,
}
use punchcardos.Timeconst.Fixed.{wrap}

-- for (dig = 0, lim = 1; dig < pos; dig++) lim *= 10;
power : ℕ → ℕ → ℕ
power zero lim = lim
power (suc k) lim = power k (wrap (lim * 10))

-- for (dig = 0; in >= lim; dig++) in -= lim; the first argument bounds the rounds.
subtract : ℕ → ℕ → ℕ → ℕ → ℕ × ℕ
subtract zero rest lim dig = (dig, rest)
subtract (suc f) rest lim dig =
    let more = subtract f (rest - lim) lim (dig + 1) in if leb lim rest then more else (dig, rest)

-- One round of the `do` loop: the digits in the buffer, and what is left of the number. A buffer of
-- `n` digits is `digits == n`.
itoa_round : ℕ → Bytes → ℕ → Bytes × ℕ
unfolding power subtract
itoa_round pos buffer rest =
    let lim = power pos 1 in
    let (dig, left) = subtract rest rest lim 0 in
    if ltb 0 (length buffer) || leb lim rest || pos == 0
    then (buffer ++ (b'0' + dig) ∷ [], left)
    else (buffer, rest)

-- do { … } while (pos--);
itoa_loop : ℕ → Bytes → ℕ → Bytes
unfolding itoa_round
itoa_loop zero buffer rest = (itoa_round 0 buffer rest).0
itoa_loop (suc pos) buffer rest =
    let (buffer', left) = itoa_round (suc pos) buffer rest in itoa_loop pos buffer' left

-- `long` has 64 bits, so the loop starts at position 19. The comparison with the unsigned `lim` makes
-- the argument unsigned.
unfoldable pub itoa : ℕ → Bytes
unfolding itoa_loop
itoa n = itoa_loop 19 [] n

abbrev pub int_max : ℕ
int_max = 2_147_483_647

-- The loop of `atoi`. Signed overflow is undefined: `none`.
unfoldable pub atoi_from : ℕ → Bytes → Option ℕ
atoi_from ret [] = some ret
atoi_from ret (c ∷ s) =
    let ret' = ret * 10 + (c - b'0') in
    let rest = atoi_from ret' s in
    if is_digit c then (if leb ret' int_max then rest else none) else some ret

unfoldable pub atoi : Bytes → Option ℕ
unfolding atoi_from
atoi s = atoi_from 0 s
