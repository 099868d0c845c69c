-- ===== src/Ar/Names.antt =====
-- The names that programs/ar.c finds in the table of an archive.
use punchcardos.Ar.Archive.{table_entry}
use punchcardos.Ar.Headers.{end_name-member}
use punchcardos.Ar.Listing.{
  Listed, path_max, atol, end_name, names_of, print_path, on_offset, on_name,
}
use punchcardos.Ar.{member_header, stored_name}
use punchcardos.Prelude.{
  ℕ, suc, ◌+◌, ◌^◌, ◌<◌, ◌≤◌, ◌≡◌, ◌≢◌, refl, ap, ◌∙◌, [], ◌∷◌, ◌++◌, Bytes, length, drop, codes,
  append_assoc, length-append, until_nul, ==_ne, lt→ltb, le→leb, arith,
}
use punchcardos.Timeconst.Decimal.{itoa}

-- A name that the list gives back.
abbrev pub Plain : Bytes → Type 0
Plain [] = Unit {0}
Plain (c ∷ s) = ((c ≢ b'\n') × ((c ≢ b'/') × (c ≢ 0))) × Plain s

names_of-name : (s rest : Bytes) → Plain s → until_nul (names_of (s ++ b'/' ∷ rest)) ≡ s
unfolding names_of until_nul
names_of-name [] rest h = refl
names_of-name (c ∷ s) rest h =
    rw (==_ne c b'\n' h.0.0, names_of)
      (rw (==_ne c b'/' h.0.1.0)
        (rw (==_ne c 0 h.0.1.1, until_nul) (ap (◌∷◌ c) (names_of-name s rest h.1))))

drop-names_of : (s rest : Bytes) → drop (length s) (names_of (s ++ rest)) ≡ names_of rest
unfolding names_of
drop-names_of [] rest = refl
drop-names_of (c ∷ s) rest = drop-names_of s rest

length-names_of : (s : Bytes) → length (names_of s) ≡ suc (length s)
unfolding names_of
length-names_of [] = refl
length-names_of (c ∷ s) = ap suc (length-names_of s)

module _ (dir : Bytes) where
  on_name-empty :
      (names hdr out : Bytes) (again : Bytes → Listed)
      → until_nul hdr ≡ []
      → on_name dir names hdr out again ≡ on_offset dir names (atol (drop 1 hdr)) out again
  unfolding on_name
  on_name-empty names hdr out again e = rw (e, on_name) refl

  on_offset-inside :
      (names : Bytes) (offset : ℕ) (out : Bytes) (again : Bytes → Listed)
      → offset < length names
      → on_offset dir names offset out again
        ≡ print_path dir (until_nul (drop offset names)) out again
  unfolding on_offset
  on_offset-inside names offset out again h = rw (lt→ltb offset (length names) h, on_offset) refl

  print_path-room :
      (name out : Bytes) (again : Bytes → Listed)
      → length dir + length name + 2 ≤ path_max
      → print_path dir name out again ≡ again (out ++ (dir ++ b'/' ∷ (name ++ b'\n' ∷ [])))
  unfolding print_path
  print_path-room name out again h =
      rw (le→leb (length dir + length name + 2) path_max h, print_path) refl

  pub on_name-member :
      (front : Bytes) (c : ℕ) (member rest : Bytes) (size : ℕ) (out : Bytes)
      (again : Bytes → Listed)
      → Plain (stored_name (c ∷ member))
      → length dir + length (stored_name (c ∷ member)) + 2 ≤ path_max
      → length (itoa (length front)) ≤ 14
      → length front < 2 ^ 64
      → on_name dir
          (names_of (front ++ (table_entry (c ∷ member) ++ rest)))
          (end_name (member_header (length front) size))
          out
          again
        ≡ again (out ++ (dir ++ b'/' ∷ (stored_name (c ∷ member) ++ b'\n' ∷ [])))
  on_name-member front c member rest size out again plain room fits small =
      let name = stored_name (c ∷ member) in
      let read = end_name-member (length front) size fits small in
      let names = names_of (front ++ (table_entry (c ∷ member) ++ rest)) in
      let table = front ++ (table_entry (c ∷ member) ++ rest) in
      let inside : length front < length (names_of table) =
        omega
          (arith, length-names_of table, length-append front (table_entry (c ∷ member) ++ rest)) in
      let text : until_nul (drop (length front) (names_of table)) ≡ name =
        ap until_nul (
          drop-names_of front (table_entry (c ∷ member) ++ rest)
          ∙ ap names_of (append_assoc name (codes "/\n") rest))
        ∙ names_of-name name (b'\n' ∷ rest) plain in
      on_name-empty names (end_name (member_header (length front) size)) out again read.0
      ∙ (ap (λ o. on_offset dir names o out again) read.1
          ∙ (on_offset-inside names (length front) out again inside
              ∙ (ap (λ n. print_path dir n out again) text ∙ print_path-room name out again room)))
