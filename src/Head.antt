-- ===== src/Head.antt =====
-- programs/head.c: prints the first lines or bytes of a file.
mod Samples
pub mod Cut
pub mod Lines
pub mod First
pub mod Args
use punchcardos.Prelude.{
  ℕ, zero, suc, ◌+◌, ◌-◌, ◌%◌, ◌^◌, Bool, true, false, List, [], ◌∷◌, ◌++◌, Bytes, length, take,
  drop, ◌==◌, if◌then◌else◌,
}
use punchcardos.Sys.{
  ReadEvent, got, failed, Output, Written, count, eintr, error, write, exit_success, exit_failure,
}

-- What the inner loop finds: the index of the delimiter behind the last line that is wanted, or how many
-- lines are still wanted. An `int` is kept as the number of 32 bits that it is stored as.
pub data Scan : Type 0 where
  found : ℕ → Scan
  through : ℕ → Scan

-- lines_remaining--
abbrev pub decrement : ℕ → ℕ
decrement n = (n + (2 ^ 32 - 1)) % 2 ^ 32

-- for (int i = 0; i < n; i++), over the bytes that are left of `buf`.
unfoldable pub scan : ℕ → Bytes → ℕ → ℕ → Scan
scan delim [] i lines_remaining = through lines_remaining
scan delim (c ∷ bytes) i lines_remaining = elim (c == delim) [
  | false ↦ scan delim bytes (i + 1) lines_remaining
  | true ↦ elim (decrement lines_remaining == 0) [
    | true ↦ found i
    | false ↦ scan delim bytes (i + 1) (decrement lines_remaining)
  ]
]

-- write(…) != n
abbrev pub not_all : ℕ → Written → Bool
not_all n (count k) = if k == n then false else true
not_all n eintr = true
not_all n error = true

-- puts("")
abbrev pub puts_nothing : Output → Output
puts_nothing o = (write (b'\n' ∷ []) o).1

last_part : Bytes → Output → ℕ × Output
last_part part o =
    if not_all (length part) (write part o).0
    then (exit_failure, (write part o).1)
    else (exit_success, puts_nothing (write part o).1)

-- What follows from the scan of one buffer.
on_scan : Bytes → Output → Scan → (ℕ → Output → ℕ × Output) → ℕ × Output
unfolding last_part
on_scan buf o (found i) again = last_part (take i buf) o
on_scan buf o (through lines_remaining) again =
    if not_all (length buf) (write buf o).0
    then (exit_failure, (write buf o).1)
    else again lines_remaining (write buf o).1

-- while ((n = read(fd, buf, BUFSIZ)) > 0). A failed read ends the loop as the end of the file does.
unfoldable pub read_loop : ℕ → List ReadEvent → ℕ → Output → ℕ × Output
unfolding on_scan scan
read_loop delim [] lines_remaining o = (exit_success, puts_nothing o)
read_loop delim (failed ∷ es) lines_remaining o = (exit_success, puts_nothing o)
read_loop delim (got [] ∷ es) lines_remaining o = (exit_success, puts_nothing o)
read_loop delim (got (c ∷ bytes) ∷ es) lines_remaining o =
    on_scan (c ∷ bytes) o (scan delim (c ∷ bytes) 0 lines_remaining)
      (λ n o'. read_loop delim es n o')

unfoldable pub read_lines : List ReadEvent → ℕ → Bool → Output → ℕ × Output
unfolding read_loop
read_lines es lines zero_delim o = read_loop (if zero_delim then 0 else b'\n') es lines o

-- So many bytes of a buffer from an index on, where `memory` is what it holds.
unfoldable pub stale : (ℕ → ℕ) → ℕ → ℕ → Bytes
stale memory i zero = []
stale memory i (suc n) = memory i ∷ stale memory (i + 1) n

-- What a read leaves in a buffer of `n` bytes that has not been written before.
unfoldable pub filled : ℕ → (ℕ → ℕ) → List ReadEvent → Bytes
unfolding stale
filled n memory [] = stale memory 0 n
filled n memory (failed ∷ es) = stale memory 0 n
filled n memory (got bytes ∷ es) =
    take n bytes ++ stale memory (length (take n bytes)) (n - length (take n bytes))

-- The bytes go to the descriptor 0, all `bytes` of the buffer, and neither result can be below the
-- bound that it is compared with. `allocated` is whether malloc succeeds.
unfoldable pub read_bytes : Bool → (ℕ → ℕ) → List ReadEvent → ℕ → Output → ℕ × Output
unfolding filled
read_bytes allocated memory es bytes stdin =
    if allocated
    then (exit_success, (write (filled bytes memory es) stdin).1)
    else (exit_failure, stdin)
