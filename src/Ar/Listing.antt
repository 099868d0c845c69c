-- ===== src/Ar/Listing.antt =====
-- ar_list of programs/ar.c, with the lists of both kinds of archives. A file is the bytes behind its
-- position; its reads do not fail.
use punchcardos.Ar.{armagt}
use punchcardos.Prelude.{
  ℕ, zero, suc, ◌+◌, ◌-◌, ◌*◌, true, false, ◌&&◌, ◌||◌, [], ◌∷◌, ◌++◌, Bytes, Option, none, some,
  length, take, drop, ltb, leb, ◌==◌, if◌then◌else◌, codes, is_digit, is_prefix, str_eq, until_nul,
}
use punchcardos.Sys.{Outcome, returns, undefined, exit_success, exit_failure}

-- How a list ends, with what has been printed.
abbrev pub Listed : Type 0
Listed = Outcome ℕ × Bytes

-- PATH_MAX
abbrev pub path_max : ℕ
path_max = 4_096

-- ARMAG
abbrev pub armag : Bytes
armag = codes "!<arch>\n"

-- The loop of atol behind what has been read. Its `long` overflows for a number of 2^63 or more, which is
-- undefined in C; here the number goes on to grow.
unfoldable pub atol_from : ℕ → Bytes → ℕ
atol_from ret [] = ret
atol_from ret (c ∷ s) = if is_digit c then atol_from (ret * 10 + (c - b'0')) s else ret

-- atol of the build with a C library. The fields have no NUL, so that strlen reads on; but the loop
-- ends at the first byte that is no digit.
abbrev pub atol : Bytes → ℕ
atol s = atol_from 0 s

-- read(fd, &hdr, sizeof(hdr)) on what is left: a short read keeps the end of the header.
abbrev pub read_header : Bytes → Bytes → Bytes
read_header rest hdr = take 60 rest ++ drop (length (take 60 rest)) hdr

-- The first slash of so many bytes becomes a NUL.
unfoldable pub end_at_slash : ℕ → Bytes → Bytes
end_at_slash zero s = s
end_at_slash (suc n) [] = []
end_at_slash (suc n) (c ∷ s) = if c == b'/' then 0 ∷ s else c ∷ end_at_slash n s

-- The header with hdr.name[15] = '/' and the loop over hdr.name.
unfoldable pub end_name : Bytes → Bytes
unfolding end_at_slash
end_name hdr = end_at_slash 15 (take 15 hdr ++ b'/' ∷ drop 16 hdr)

-- hdr.size
abbrev pub size_of : Bytes → ℕ
size_of hdr = atol (drop 48 hdr)

-- puts, and nothing for an empty name
abbrev print_name : Bytes → Bytes → Bytes
print_name [] out = out
print_name (c ∷ name) out = out ++ ((c ∷ name) ++ b'\n' ∷ [])

-- The loop of ar_arch_list with a bound on its rounds: the file behind its position, the header as it
-- was, and what has been printed.
unfoldable pub arch_loop : ℕ → Bytes → Bytes → Bytes → Listed
unfolding end_name
arch_loop zero rest hdr out = (Outcome.out_of_fuel, out)
arch_loop (suc f) [] hdr out = (returns exit_success, out)
arch_loop (suc f) (c ∷ rest) hdr out =
    let next = read_header (c ∷ rest) hdr in
    let behind = drop 60 (c ∷ rest) in
    elim (is_prefix (codes "//") next) [
      | true ↦ arch_loop f behind next out
      | false ↦
          arch_loop f (drop (size_of next) behind) (end_name next)
            (print_name (until_nul (end_name next)) out)
    ]

-- The table as the list uses it: a newline or a slash becomes a NUL, and a NUL ends it.
unfoldable pub names_of : Bytes → Bytes
names_of [] = 0 ∷ []
names_of (c ∷ table) = (if c == b'\n' || c == b'/' then 0 else c) ∷ names_of table

-- What the search for the table gives: `none` when it ends the program, or the names with the header.
abbrev pub Table : Type 0
Table = Option (Bytes × Bytes)

-- The bytes of the table behind its header.
unfoldable pub read_table : Bytes → Bytes → Table
unfolding names_of
read_table hdr rest =
    if length (take (size_of hdr) rest) == size_of hdr
    then some (names_of (take (size_of hdr) rest), hdr)
    else none

-- A round of the first loop of ar_thin_list with the header that it has read and the file behind it.
unfoldable pub find_round : (Bytes → Bytes → Outcome Table) → Bytes → Bytes → Outcome Table
unfolding read_table
find_round again next behind = elim (is_prefix (codes "//") next) [
  | true ↦ returns (read_table next behind)
  | false ↦ again behind next
]

-- The first loop of ar_thin_list, which does not step over what is behind a header.
unfoldable pub find_table : ℕ → Bytes → Bytes → Outcome Table
unfolding find_round
find_table zero rest hdr = Outcome.out_of_fuel
find_table (suc f) [] hdr = returns none
find_table (suc f) (c ∷ rest) hdr =
    find_round (λ rest' hdr'. find_table f rest' hdr') (read_header (c ∷ rest) hdr)
      (drop 60 (c ∷ rest))

-- strcpy(&fullpath[dirlen + 1], name) and puts(fullpath)
unfoldable pub print_path : Bytes → Bytes → Bytes → (Bytes → Listed) → Listed
print_path dir name out again = elim (leb (length dir + length name + 2) path_max) [
  | true ↦ again (out ++ (dir ++ b'/' ∷ (name ++ b'\n' ∷ [])))
  | false ↦ (undefined, out)
]

-- The name in the table at an offset; behind the table there is nothing to read.
unfoldable pub on_offset : Bytes → Bytes → ℕ → Bytes → (Bytes → Listed) → Listed
unfolding print_path
on_offset dir names offset out again = elim (ltb offset (length names)) [
  | true ↦ print_path dir (until_nul (drop offset names)) out again
  | false ↦ (undefined, out)
]

-- A header with its own name, or with the offset of one behind the slash that is a NUL now.
unfoldable pub on_name : Bytes → Bytes → Bytes → Bytes → (Bytes → Listed) → Listed
unfolding on_offset
on_name dir names hdr out again = elim (until_nul hdr) [
  | [] ↦ on_offset dir names (atol (drop 1 hdr)) out again
  | c ∷ name ↦ print_path dir (c ∷ name) out again
]

-- A round of the second loop of ar_thin_list with the header that it has read and the file behind it.
unfoldable pub thin_round :
    (Bytes → Bytes → Bytes → Listed) → Bytes → Bytes → Bytes → Bytes → Bytes → Listed
unfolding on_name end_name
thin_round again dir names next behind out = elim (is_prefix (codes "//") next) [
  | true ↦ again (drop (size_of next) behind) next out
  | false ↦ on_name dir names (end_name next) out (λ out'. again behind (end_name next) out')
]

-- The second loop of ar_thin_list.
unfoldable pub thin_loop : ℕ → Bytes → Bytes → Bytes → Bytes → Bytes → Listed
unfolding thin_round
thin_loop zero dir names rest hdr out = (Outcome.out_of_fuel, out)
thin_loop (suc f) dir names [] hdr out = (returns exit_success, out)
thin_loop (suc f) dir names (c ∷ rest) hdr out =
    thin_round (λ rest' hdr' out'. thin_loop f dir names rest' hdr' out') dir names
      (read_header (c ∷ rest) hdr) (drop 60 (c ∷ rest)) out

-- Behind the first loop, with the file from the offset 8 on.
unfoldable pub after_table : Bytes → Bytes → Outcome Table → Listed
unfolding thin_loop
after_table dir rest (returns none) = (returns exit_failure, [])
after_table dir rest (returns (some (names, hdr))) =
    thin_loop (suc (length rest)) dir names rest hdr []
after_table dir rest (Outcome.exits n) = (Outcome.exits n, [])
after_table dir rest undefined = (undefined, [])
after_table dir rest Outcome.out_of_fuel = (Outcome.out_of_fuel, [])

-- ar_thin_list with the directory that dirname gives; each round reads a byte at least. fullpath has room for the
-- directory and a slash, or the program writes past it.
unfoldable pub ar_thin_list : Bytes → Bytes → Bytes → Listed
unfolding find_table after_table
ar_thin_list dir rest garbage = elim (leb (length dir + 2) path_max) [
  | true ↦ after_table dir rest (find_table (suc (length rest)) rest garbage)
  | false ↦ (undefined, [])
]

unfoldable pub ar_arch_list : Bytes → Bytes → Listed
unfolding arch_loop
ar_arch_list rest garbage = arch_loop (suc (length rest)) rest garbage []

-- What stands in memory: the byte behind magicbuf, which strcmp reads, and the header before any read.
pub record Memory : Type 0 where
  pub behind : ℕ
  pub header_garbage : Bytes

unfoldable pub on_magic : Memory → Bytes → Bytes → Bytes → Listed
unfolding ar_thin_list ar_arch_list
on_magic m dir magic rest =
    if str_eq magic armag && m.behind == 0
    then ar_arch_list rest m.header_garbage
    else if str_eq magic armagt && m.behind == 0
    then ar_thin_list dir rest m.header_garbage
    else (returns exit_failure, [])

-- ar_list on a file, or without one when it cannot be opened.
unfoldable pub ar_list : Memory → Bytes → Option Bytes → Listed
unfolding on_magic
ar_list m dir none = (returns exit_failure, [])
ar_list m dir (some file) =
    if length (take 8 file) == 8
    then on_magic m dir (take 8 file) (drop 8 file)
    else (returns exit_failure, [])
