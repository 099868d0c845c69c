-- ===== src/Ar.antt =====
-- programs/ar.c: writes a thin archive of files.
mod Samples
pub mod Archive
pub mod Headers
pub mod Names
pub mod Trip
pub mod Listing
pub mod Main
use punchcardos.Prelude.{
  ℕ, zero, suc, ◌+◌, ◌-◌, Bool, true, false, ◌&&◌, List, [], ◌∷◌, ◌++◌, Bytes, Option, none, some,
  length, leb, ◌==◌, if◌then◌else◌, codes,
}
use punchcardos.Sys.{
  Output, Written, count, eintr, error, write, Outcome, returns, undefined, exit_success,
  exit_failure,
}
use punchcardos.Timeconst.Decimal.{itoa}

-- What the program meets: whether a file is there, what open gives for a name with O_CREAT or without, and
-- the size that stat tells.
pub record Files : Type 0 where
  pub access : Bytes → Bool
  pub opened : Bytes → Bool → Option Output
  pub stat : Bytes → Option ℕ

abbrev pub Run : Type 0
Run = Outcome ℕ × Option Output

-- ARMAGT
abbrev pub armagt : Bytes
armagt = codes "!<thin>\n"

-- A field of a header that memset has filled with spaces.
unfoldable pub field : ℕ → Bytes → Bytes
field zero s = []
field (suc n) [] = b' ' ∷ field n []
field (suc n) (c ∷ s) = c ∷ field n s

-- struct ar_header
unfoldable pub header : Bytes → Bytes → Bytes → Bytes → Bytes
unfolding field
header name nought mode size =
    field 16 name
    ++ (field 12 nought
        ++ (field 6 nought ++ (field 6 nought ++ (field 8 mode ++ (field 10 size ++ codes "`\n")))))

-- The header of the table of names.
abbrev pub table_header : ℕ → Bytes
table_header size = header (codes "//") [] [] (itoa size)

-- The header of a member.
abbrev pub member_header : ℕ → ℕ → Bytes
member_header offset size = header (b'/' ∷ itoa offset) (codes "0") (codes "644") (itoa size)

-- A leading ./ of a longer name is left out.
unfoldable pub stored_name : Bytes → Bytes
stored_name [] = []
stored_name (c ∷ []) = c ∷ []
stored_name (c ∷ d ∷ []) = c ∷ d ∷ []
stored_name (c ∷ d ∷ e ∷ s) = if c == b'.' && d == b'/' then e ∷ s else c ∷ d ∷ e ∷ s

-- name_offset behind a member, where `len` is the one of the stored name.
unfoldable pub offset_behind : Bytes → ℕ → ℕ
unfolding stored_name
offset_behind [] offset = offset
offset_behind (c ∷ member) offset = offset + (length (stored_name (c ∷ member)) + 2)

-- The first loop over the members.
unfoldable pub table_size : List Bytes → ℕ → ℕ
unfolding offset_behind
table_size [] offset = offset
table_size (member ∷ members) offset = table_size members (offset_behind member offset)

-- write(…) != len
on_written : ℕ → Written → Output → (Output → Run) → Run
on_written len (count n) o again = elim (n == len) [
  | true ↦ again o
  | false ↦ (returns exit_failure, some o)
]
on_written len eintr o again = (returns exit_failure, some o)
on_written len error o again = (returns exit_failure, some o)

unfoldable pub put : Bytes → Output → (Output → Run) → Run
unfolding on_written
put bytes o again = on_written (length bytes) (write bytes o).0 (write bytes o).1 again

-- The second loop, which writes the names.
unfoldable pub write_names : List Bytes → Output → (Output → Run) → Run
unfolding put stored_name
write_names [] o again = again o
write_names ([] ∷ members) o again = write_names members o again
write_names ((c ∷ member) ∷ members) o again =
    put (stored_name (c ∷ member)) o
      (λ o1. put (codes "/\n") o1 (λ o2. write_names members o2 again))

-- The offset of a member behind `/` has 15 places in its header and the size 10. memcpy writes what is
-- longer past the field.
unfoldable pub fields_fit : ℕ → ℕ → Bool
fields_fit offset size = leb (length (itoa offset)) 15 && leb (length (itoa size)) 10

-- The rest of a round with the size of the file. An empty name is skipped only behind stat.
on_stat : Bytes → ℕ → Option ℕ → Output → (ℕ → Output → Run) → Run
unfolding put fields_fit offset_behind
on_stat member offset none o again = (returns exit_failure, some o)
on_stat [] offset (some size) o again = again offset o
on_stat (c ∷ member) offset (some size) o again = elim (fields_fit offset size) [
  | true ↦ put (member_header offset size) o (λ o'. again (offset_behind (c ∷ member) offset) o')
  | false ↦ (undefined, some o)
]

-- The third loop, which writes a header for each member.
unfoldable pub write_headers : Files → List Bytes → ℕ → Output → Run
unfolding on_stat
write_headers fs [] offset o = (returns exit_success, some o)
write_headers fs (member ∷ members) offset o =
    on_stat member offset (fs.stat member) o (λ offset' o'. write_headers fs members offset' o')

write_archive : Files → List Bytes → Output → Run
unfolding put table_size write_names write_headers
write_archive fs members o = put armagt o (λ o1.
    elim (leb (length (itoa (table_size members 0))) 10) [
      | false ↦ (undefined, some o1)
      | true ↦
          put (table_header (table_size members 0)) o1
            (λ o2. write_names members o2 (λ o3. write_headers fs members 0 o3))
    ])

unfoldable pub ar_replace_new_thin : Files → Bytes → List Bytes → Bool → Run
unfolding write_archive
ar_replace_new_thin fs archive members create = elim (fs.opened archive create) [
  | none ↦ (returns exit_failure, none)
  | some o ↦ write_archive fs members o
]

-- The flags FLAG_THIN and FLAG_CREATE.
unfoldable pub ar_replace_new : Files → Bytes → List Bytes → Bool → Bool → Run
unfolding ar_replace_new_thin
ar_replace_new fs archive members thin create =
    if thin then ar_replace_new_thin fs archive members create else (returns exit_failure, none)

unfoldable pub ar_replace : Files → Bytes → List Bytes → Bool → Bool → Run
unfolding ar_replace_new
ar_replace fs archive members thin create =
    if fs.access archive
    then (returns exit_failure, none)
    else ar_replace_new fs archive members thin create
