-- ===== src/Ar/Archive.antt =====
-- The archive that programs/ar.c writes.
use punchcardos.Ar.{
  Files, Run, armagt, table_header, member_header, stored_name, offset_behind, table_size, put,
  on_written, write_names, fields_fit, on_stat, write_headers, write_archive, ar_replace_new_thin,
  ar_replace_new, ar_replace,
}
use punchcardos.Prelude.{
  ℕ, ◌+◌, ◌≤◌, ◌≡◌, refl, sym, ap, ◌∙◌, true, false, List, [], ◌∷◌, ◌++◌, Bytes, some, length,
  codes, append_assoc, append-nil, length-append, le→leb, ==_refl, arith,
}
use punchcardos.Sys.{Output, open_output, write, returns, exit_success}
use punchcardos.Timeconst.Decimal.{itoa}

-- What the table holds for a member.
abbrev pub table_entry : Bytes → Bytes
table_entry [] = []
table_entry (c ∷ member) = stored_name (c ∷ member) ++ codes "/\n"

abbrev pub name_table : List Bytes → Bytes
name_table [] = []
name_table (member ∷ members) = table_entry member ++ name_table members

-- The header of a member behind others, by the size of its file.
abbrev pub entry_after : List Bytes → Bytes → ℕ → Bytes
entry_after before [] size = []
entry_after before (c ∷ member) size = member_header (length (name_table before)) size

-- The headers of members that stand behind others, by the sizes of the files.
abbrev pub headers_after : (Bytes → ℕ) → List Bytes → List Bytes → Bytes
headers_after size before [] = []
headers_after size before (member ∷ members) =
    entry_after before member (size member) ++ headers_after size (before ++ member ∷ []) members

length-table_entry :
    (member : Bytes) (offset : ℕ)
    → offset_behind member offset ≡ offset + length (table_entry member)
unfolding offset_behind
length-table_entry [] offset = omega arith
length-table_entry (c ∷ member) offset =
    ap (λ n. offset + n) (sym (length-append (stored_name (c ∷ member)) (codes "/\n")))

table_size-length :
    (members : List Bytes) (offset : ℕ)
    → table_size members offset ≡ offset + length (name_table members)
unfolding table_size
table_size-length [] offset = omega arith
table_size-length (member ∷ members) offset =
    let here = length-table_entry member offset in
    let all = length-append (table_entry member) (name_table members) in
    table_size-length members (offset_behind member offset) ∙ omega (arith, here, all)

pub name_table-append :
    (before : List Bytes) (members : List Bytes)
    → name_table (before ++ members) ≡ name_table before ++ name_table members
name_table-append [] members = refl
name_table-append (m ∷ before) members =
    ap (λ t. table_entry m ++ t) (name_table-append before members)
    ∙ sym (append_assoc (table_entry m) (name_table before) (name_table members))

put-open :
    (bytes w : Bytes) (again : _)
    → put bytes (open_output w) again ≡ again (open_output (w ++ bytes))
unfolding put on_written write
put-open bytes w again = rw (==_refl (length bytes), put, on_written) refl

write_names-table :
    (members : List Bytes) (w : Bytes) (again : _)
    → write_names members (open_output w) again ≡ again (open_output (w ++ name_table members))
unfolding write_names
write_names-table [] w again = rw (append-nil w) refl
write_names-table ([] ∷ members) w again = write_names-table members w again
write_names-table ((c ∷ member) ∷ members) w again =
    let name = stored_name (c ∷ member) in
    let all : ((w ++ name) ++ codes "/\n") ++ name_table members
        ≡ w ++ ((name ++ codes "/\n") ++ name_table members) =
      simp append_assoc in
    put-open name w _
    ∙ (put-open (codes "/\n") (w ++ name) _
        ∙ rw all at (write_names-table members ((w ++ name) ++ codes "/\n") again))

-- Each file is there, and the numbers fit their fields.
abbrev pub Recorded : Files → (Bytes → ℕ) → List Bytes → List Bytes → Type 0
Recorded fs size before [] = Unit {0}
Recorded fs size before (member ∷ members) =
    ((fs.stat member ≡ some (size member))
      × ((length (itoa (length (name_table before))) ≤ 15) × (length (itoa (size member)) ≤ 10)))
    × Recorded fs size (before ++ member ∷ []) members

on_stat-entry :
    (member : Bytes) (before : List Bytes) (size : ℕ) (w : Bytes) (again : _)
    → length (itoa (length (name_table before))) ≤ 15
    → length (itoa size) ≤ 10
    → on_stat member (length (name_table before)) (some size) (open_output w) again
      ≡ again
          (length (name_table (before ++ member ∷ [])))
          (open_output (w ++ entry_after before member size))
unfolding on_stat fields_fit
on_stat-entry [] before size w again h k =
    let next : length (name_table (before ++ [] ∷ [])) ≡ length (name_table before) =
      ap length (name_table-append before ([] ∷ []) ∙ append-nil (name_table before)) in
    rw (next, append-nil w) refl
on_stat-entry (c ∷ member) before size w again h k =
    let offset = length (name_table before) in
    let next : offset_behind (c ∷ member) offset
        ≡ length (name_table (before ++ (c ∷ member) ∷ [])) =
      length-table_entry (c ∷ member) offset
      ∙ sym (
          ap length (name_table-append before ((c ∷ member) ∷ []))
          ∙ (length-append (name_table before) (table_entry (c ∷ member) ++ [])
              ∙ ap (λ t. offset + length t) (append-nil (table_entry (c ∷ member))))) in
    rw (le→leb (length (itoa offset)) 15 h, on_stat)
      (rw (le→leb (length (itoa size)) 10 k)
        (put-open (member_header offset size) w _ ∙ rw next refl))

write_headers-after :
    (fs : Files) (size : Bytes → ℕ) (members before : List Bytes) (w : Bytes)
    → Recorded fs size before members
    → write_headers fs members (length (name_table before)) (open_output w)
      ≡ (returns exit_success, some (open_output (w ++ headers_after size before members)))
unfolding write_headers
write_headers-after fs size [] before w h = rw (append-nil w) refl
write_headers-after fs size (member ∷ members) before w h =
    let entry = entry_after before member (size member) in
    let again : ℕ → Output → Run = λ offset' o'. write_headers fs members offset' o' in
    let rest = headers_after size (before ++ member ∷ []) members in
    ap (λ s. on_stat member (length (name_table before)) s (open_output w) again) h.0.0
    ∙ (on_stat-entry member before (size member) w again h.0.1.0 h.0.1.1
        ∙ rw (append_assoc w entry rest) at
            (write_headers-after fs size members (before ++ member ∷ []) (w ++ entry) h.1))

-- When the archive can be made anew, each file is there and the numbers fit their fields: the archive is
-- the magic, the header of the table with its size, the table of the names, and for each member that
-- has a name a header with the size of its file and, as its offset, the length of the table of the
-- members in front of it.
pub ar_replace-archive :
    (fs : Files) (size : Bytes → ℕ) (archive : Bytes) (members : List Bytes) (create : _)
    → fs.access archive ≡ false
    → fs.opened archive create ≡ some (open_output [])
    → length (itoa (length (name_table members))) ≤ 10
    → Recorded fs size [] members
    → ar_replace fs archive members true create ≡ (
      returns exit_success,
      some (
          open_output (
            ((armagt ++ table_header (length (name_table members))) ++ name_table members)
            ++ headers_after size [] members)),
    )
unfolding ar_replace ar_replace_new ar_replace_new_thin write_archive
ar_replace-archive fs size archive members create fresh opened fits h =
    let total : table_size members 0 ≡ length (name_table members) =
      table_size-length members 0 ∙ omega arith in
    let start = armagt ++ table_header (length (name_table members)) in
    let names : Output → Run = λ o2. write_names members o2 (λ o3. write_headers fs members 0 o3) in
    rw (fresh, ar_replace)
      (rw (opened, ar_replace_new_thin)
        (put-open armagt [] _
          ∙ rw (le→leb (length (itoa (table_size members 0))) 10 (rw total fits)) (
              ap (λ k. put (table_header k) (open_output armagt) names) total
              ∙ (put-open (table_header (length (name_table members))) armagt names
                  ∙ (write_names-table members start _
                      ∙ write_headers-after fs size members [] (start ++ name_table members) h)))))
