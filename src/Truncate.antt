-- ===== src/Truncate.antt =====
-- programs/truncate.c: sets the sizes of files.
mod Samples
pub mod Resize
pub mod Whole
pub mod Stale
pub mod Args
use punchcardos.Numbers.{Parsed, long_max, parse_number}
use punchcardos.Prelude.{
  ℕ, zero, suc, ◌+◌, ◌-◌, ◌*◌, ◌%◌, Bool, true, false, Option, none, some, Bytes, List, [], ◌∷◌,
  ◌++◌, ltb, leb, ◌==◌, if◌then◌else◌, length, take, str_eq,
}
use punchcardos.Sys.{Outcome, returns, undefined, exit_success, exit_failure}

unfoldable pub parse_size : Bytes → Parsed
unfolding parse_number
parse_size s = parse_number b'K' s

-- What the kernel may refuse, and what it says of a file's blocks.
pub record Host : Type 0 where
  pub stat_denied : Bytes → Bool
  pub open_denied : Bytes → Bool
  pub truncate_denied : Bytes → Bool
  pub block_size : Bytes → ℕ

-- The files with their contents, and whether `errno` is `ENOENT`.
pub record Disk : Type 0 where
  pub file : Bytes → Option Bytes
  pub enoent : Bool

abbrev pub put_file : Bytes → Bytes → Disk → Disk
put_file name bs d = record d { file = λ k. if str_eq k name then some bs else d.file k }

abbrev pub set_errno : Bool → Disk → Disk
set_errno b d = record d { enoent = b }

abbrev pub zeros : ℕ → Bytes
zeros zero = []
zeros (suc n) = 0 ∷ zeros n

-- truncate(2): the file is cut, or filled up with NULs.
abbrev pub resize : ℕ → Bytes → Bytes
resize n bs = take n bs ++ zeros (n - length bs)

-- The `switch` on the operand: the new size from the present one. `none` is an operand that is not
-- supported.
pub data NewSize : Type 0 where
  to : ℕ → NewSize
  unsupported : NewSize
  faulty : NewSize

-- The result of signed arithmetic: beyond `long_max` it is undefined.
abbrev pub fits : ℕ → NewSize
fits n = if leb n long_max then to n else faulty

-- case '/' and case '%': the size is the modulus, and stays the size where nothing is left over.
round_down : ℕ → ℕ → NewSize
round_down current modulus =
    if modulus == 0
    then faulty
    else to (if current % modulus == 0 then modulus else current - current % modulus)

round_up : ℕ → ℕ → NewSize
round_up current modulus =
    if modulus == 0
    then faulty
    else if current % modulus == 0
    then to modulus
    else fits (current + (modulus - current % modulus))

unfoldable pub new_size : ℕ → ℕ → ℕ → NewSize
unfolding round_down round_up
new_size op size current =
    if op == b'='
    then to size
    else if op == b'+'
    then fits (size + current)
    else if op == b'-'
    then to (if ltb current size then 0 else current - size)
    else if op == b'<'
    then to (if ltb current size then current else size)
    else if op == b'>'
    then to (if ltb size current then current else size)
    else if op == b'/'
    then round_down current size
    else if op == b'%'
    then round_up current size
    else unsupported

-- Behind the `switch`.
set_size : Host → Bytes → NewSize → Disk → Outcome ℕ × Disk
set_size h name unsupported d = (returns exit_failure, d)
set_size h name faulty d = (undefined, d)
set_size h name (to n) d = elim (d.file name) [
  | none ↦ (returns exit_failure, set_errno true d)
  | some bs ↦
      if h.truncate_denied name
      then (returns exit_failure, set_errno false d)
      else (returns exit_success, put_file name (resize n bs) d)
]

-- From the test of `io_blocks` on; `blocks` is `st.st_blksize`.
resize_file : Host → Bytes → ℕ → ℕ → Bool → ℕ → ℕ → Disk → Outcome ℕ × Disk
unfolding set_size new_size
resize_file h name op size false blocks current d = set_size h name (new_size op size current) d
resize_file h name op size true blocks current d =
    if leb (size * blocks) long_max
    then set_size h name (new_size op (size * blocks) current) d
    else (undefined, d)

-- if (errno == ENOENT): the file is opened with `O_TRUNC`.
create_or_keep : Host → Bytes → ℕ → ℕ → Bool → ℕ → Bytes → Disk → Outcome ℕ × Disk
unfolding resize_file
create_or_keep h name op size io_blocks blocks content d =
    if d.enoent
    then (if h.open_denied name
        then (returns exit_failure, set_errno false d)
        else resize_file h name op size io_blocks blocks 0 (put_file name [] d))
    else resize_file h name op size io_blocks blocks (length content) d

-- A call of `stat` that succeeds leaves `errno` alone; one that fails leaves `st` alone, so that it
-- holds `garbage`.
stat_file : Host → ℕ → Bytes → ℕ → ℕ → Bool → Bool → Option Bytes → Disk → Outcome ℕ × Disk
unfolding create_or_keep
stat_file h garbage name op size no_create io_blocks none d =
    if no_create
    then (returns exit_failure, set_errno true d)
    else create_or_keep h name op size io_blocks garbage [] (set_errno true d)
stat_file h garbage name op size no_create io_blocks (some content) d =
    create_or_keep h name op size io_blocks (h.block_size name) content d

unfoldable pub do_truncate : Host → ℕ → Bytes → ℕ → ℕ → Bool → Bool → Disk → Outcome ℕ × Disk
unfolding stat_file str_eq
do_truncate h garbage name op size no_create io_blocks d =
    if h.stat_denied name
    then (returns exit_failure, set_errno false d)
    else stat_file h garbage name op size no_create io_blocks (d.file name) d
