-- ===== src/Ar/Trip.antt =====
-- What programs/ar.c lists of a thin archive that it has written.
use punchcardos.Ar.Names.{Plain, on_name-member}
use punchcardos.Ar.Archive.{
  table_entry, name_table, headers_after, name_table-append, Recorded, ar_replace-archive,
}
use punchcardos.Ar.Headers.{
  length-header, size_of-header, read_header-whole, length-end_name, member_header-prefix,
}
use punchcardos.Ar.Listing.{
  Memory, Listed, path_max, read_header, end_name, size_of, names_of, read_table, find_round,
  find_table, on_name, thin_round, thin_loop, after_table, ar_thin_list, on_magic, ar_list,
}
use punchcardos.Ar.{
  Files, armagt, field, header, table_header, member_header, stored_name, ar_replace,
}
use punchcardos.Prelude.{
  take_front, drop_front, ℕ, suc, ◌+◌, ◌-◌, ◌^◌, ◌<◌, ◌≤◌, ◌≡◌, refl, sym, ap, ◌∙◌, true, false,
  List, [], ◌∷◌, ◌++◌, Bytes, some, length, take, drop, codes, append_assoc, append-nil,
  length-append, is_prefix, str_eq, ==_refl, le→leb, arith,
}
use punchcardos.Sys.{open_output, returns, exit_success}
use punchcardos.Timeconst.Decimal.{itoa}

-- What is printed for the members.
abbrev pub listing : Bytes → List Bytes → Bytes
listing dir [] = []
listing dir (member ∷ members) =
    (dir ++ b'/' ∷ (stored_name member ++ b'\n' ∷ [])) ++ listing dir members

-- Members with names that the list gives back, whose offsets fit the field of the name.
abbrev pub Listable : Bytes → List Bytes → List Bytes → Type 0
Listable dir before [] = Unit {0}
Listable dir before (member ∷ members) =
    ((0 < length member)
      × (Plain (stored_name member)
          × ((length dir + length (stored_name member) + 2 ≤ path_max)
              × ((length (itoa (length (name_table before))) ≤ 14)
                  × (length (name_table before) < 2 ^ 64)))))
    × Listable dir (before ++ member ∷ []) members

module _ (dir : Bytes) where
  thin_loop-header :
      (f : ℕ) (names h rest hdr out : Bytes)
      → length h ≡ 60
      → length hdr ≡ 60
      → is_prefix (codes "//") h ≡ false
      → thin_loop (suc f) dir names (h ++ rest) hdr out
        ≡ on_name dir names (end_name h) out (λ out'. thin_loop f dir names rest (end_name h) out')
  unfolding thin_loop thin_round
  thin_loop-header f names [] rest hdr out e k other = absurd (omega arith)
  thin_loop-header f names (c ∷ h) rest hdr out e k other =
      let read : read_header (c ∷ (h ++ rest)) hdr ≡ c ∷ h =
        read_header-whole (c ∷ h) rest hdr e k in
      let behind : drop 60 (c ∷ (h ++ rest)) ≡ rest = drop_front 60 (c ∷ h) rest e in
      ap
        (λ n.
          thin_round (λ rest' hdr' out'. thin_loop f dir names rest' hdr' out') dir names n
            (drop 60 (c ∷ (h ++ rest))) out)
        read
      ∙ (ap
            (λ b.
              thin_round (λ rest' hdr' out'. thin_loop f dir names rest' hdr' out') dir names
                (c ∷ h) b out)
            behind
          ∙ rw (other, thin_round) refl)

  thin_loop-table :
      (f : ℕ) (names h rest hdr out : Bytes)
      → length h ≡ 60
      → length hdr ≡ 60
      → is_prefix (codes "//") h ≡ true
      → thin_loop (suc f) dir names (h ++ rest) hdr out
        ≡ thin_loop f dir names (drop (size_of h) rest) h out
  unfolding thin_loop thin_round
  thin_loop-table f names [] rest hdr out e k table = absurd (omega arith)
  thin_loop-table f names (c ∷ h) rest hdr out e k table =
      let read : read_header (c ∷ (h ++ rest)) hdr ≡ c ∷ h =
        read_header-whole (c ∷ h) rest hdr e k in
      let behind : drop 60 (c ∷ (h ++ rest)) ≡ rest = drop_front 60 (c ∷ h) rest e in
      ap
        (λ n.
          thin_round (λ rest' hdr' out'. thin_loop f dir names rest' hdr' out') dir names n
            (drop 60 (c ∷ (h ++ rest))) out)
        read
      ∙ (ap
            (λ b.
              thin_round (λ rest' hdr' out'. thin_loop f dir names rest' hdr' out') dir names
                (c ∷ h) b out)
            behind
          ∙ rw (table, thin_round) refl)

  find_table-first :
      (f : ℕ) (h rest hdr : Bytes)
      → length h ≡ 60
      → length hdr ≡ 60
      → is_prefix (codes "//") h ≡ true
      → find_table (suc f) (h ++ rest) hdr ≡ returns (read_table h rest)
  unfolding find_table find_round
  find_table-first f [] rest hdr e k table = absurd (omega arith)
  find_table-first f (c ∷ h) rest hdr e k table =
      let read : read_header (c ∷ (h ++ rest)) hdr ≡ c ∷ h =
        read_header-whole (c ∷ h) rest hdr e k in
      let behind : drop 60 (c ∷ (h ++ rest)) ≡ rest = drop_front 60 (c ∷ h) rest e in
      ap (λ n. find_round (λ rest' hdr'. find_table f rest' hdr') n (drop 60 (c ∷ (h ++ rest))))
        read
      ∙ (ap (λ b. find_round (λ rest' hdr'. find_table f rest' hdr') (c ∷ h) b) behind
          ∙ rw (table, find_round) refl)

  thin_loop-members :
      (f : ℕ) (size : Bytes → ℕ) (members before : List Bytes) (table hdr out : Bytes)
      → Listable dir before members
      → table ≡ name_table (before ++ members)
      → length hdr ≡ 60
      → thin_loop
          (length members + suc f)
          dir
          (names_of table)
          (headers_after size before members)
          hdr
          out
        ≡ (returns exit_success, out ++ listing dir members)
  unfolding thin_loop
  thin_loop-members f size [] before table hdr out h same e =
      let rounds : 0 + suc f ≡ suc f = omega arith in rw (rounds, append-nil out) refl
  thin_loop-members f size ([] ∷ members) before table hdr out h same e =
      absurd (omega (arith, h.0.0))
  thin_loop-members f size ((c ∷ member) ∷ members) before table hdr out h same e =
      let front = name_table before in
      let head = member_header (length front) (size (c ∷ member)) in
      let rest = headers_after size (before ++ (c ∷ member) ∷ []) members in
      let all =
        length-header (b'/' ∷ itoa (length front)) (codes "0") (codes "644")
          (itoa (size (c ∷ member))) in
      let line = dir ++ b'/' ∷ (stored_name (c ∷ member) ++ b'\n' ∷ []) in
      let again : Bytes → Listed =
        λ out'. thin_loop (length members + suc f) dir (names_of table) rest (end_name head) out' in
      let rounds : suc (length members) + suc f ≡ suc (length members + suc f) = omega arith in
      let split : table ≡ front ++ (table_entry (c ∷ member) ++ name_table members) =
        same ∙ name_table-append before ((c ∷ member) ∷ members) in
      let next : table ≡ name_table ((before ++ (c ∷ member) ∷ []) ++ members) =
        same ∙ ap name_table (sym (append_assoc before ((c ∷ member) ∷ []) members)) in
      ap (λ k. thin_loop k dir (names_of table) (head ++ rest) hdr out) rounds
      ∙ (thin_loop-header (length members + suc f) (names_of table) head rest hdr out all e
            (member_header-prefix (length front) (size (c ∷ member)) h.0.1.1.1.1)
          ∙ (ap (λ t. on_name dir (names_of t) (end_name head) out again) split
              ∙ (on_name-member dir front c member (name_table members) (size (c ∷ member)) out
                    again h.0.1.0 h.0.1.1.0 h.0.1.1.1.0 h.0.1.1.1.1
                  ∙ rw (append_assoc out line (listing dir members)) at (
                      thin_loop-members f size members (before ++ (c ∷ member) ∷ []) table
                        (end_name head) (out ++ line) h.1 next (length-end_name head all)))))

  members-name_table :
      (members before : List Bytes)
      → Listable dir before members
      → length members ≤ length (name_table members)
  members-name_table [] before h = omega arith
  members-name_table ([] ∷ members) before h = absurd (omega (arith, h.0.0))
  members-name_table ((c ∷ member) ∷ members) before h = omega (
    arith,
    members-name_table members (before ++ (c ∷ member) ∷ []) h.1,
    length-append (table_entry (c ∷ member)) (name_table members),
    length-append (stored_name (c ∷ member)) (codes "/\n"),
  )

read_table-whole :
    (h table rest : Bytes)
    → size_of h ≡ length table
    → read_table h (table ++ rest) ≡ some (names_of table, h)
unfolding read_table
read_table-whole h table rest e =
    let whole : take (size_of h) (table ++ rest) ≡ table =
      take_front (size_of h) table rest (sym e) in
    rw (whole, e, ==_refl (length table), read_table) refl

ar_thin_list-members :
    (dir : Bytes) (size : Bytes → ℕ) (members : List Bytes) (garbage : Bytes)
    → length garbage ≡ 60
    → length dir + 2 ≤ path_max
    → length (itoa (length (name_table members))) ≤ 10
    → length (name_table members) < 2 ^ 64
    → Listable dir [] members
    → ar_thin_list dir
        (table_header (length (name_table members))
          ++ (name_table members ++ headers_after size [] members))
        garbage
      ≡ (returns exit_success, listing dir members)
unfolding ar_thin_list after_table header is_prefix field
ar_thin_list-members dir size members garbage e room fits small h =
    let table = name_table members in
    let heads = headers_after size [] members in
    let head = table_header (length table) in
    let rest = head ++ (table ++ heads) in
    let all = length-header (codes "//") [] [] (itoa (length table)) in
    let size_read = size_of-header (codes "//") [] [] (length table) fits small in
    let behind : drop (size_of head) (table ++ heads) ≡ heads =
      drop_front (size_of head) table heads (sym size_read) in
    let found : find_table (suc (length rest)) rest garbage
        ≡ returns (some (names_of table, head)) =
      find_table-first dir (length rest) head (table ++ heads) garbage all e refl
      ∙ ap (λ t. returns t) (read_table-whole head table heads size_read) in
    let k = length rest - suc (length members) in
    let rounds : length rest ≡ length members + suc k = omega (
      arith,
      members-name_table dir members [] h,
      length-append head (table ++ heads),
      all,
      length-append table heads,
    ) in
    rw (le→leb (length dir + 2) path_max room, ar_thin_list)
      (ap (after_table dir rest) found
        ∙ (thin_loop-table dir (length rest) (names_of table) head (table ++ heads) head [] all all
              refl
            ∙ (ap (λ r. thin_loop (length rest) dir (names_of table) r head []) behind
                ∙ (ap (λ n. thin_loop n dir (names_of table) heads head []) rounds
                    ∙ thin_loop-members dir k size members [] table head [] h refl all))))

ar_list-archive :
    (m : Memory) (dir rest : Bytes)
    → m.behind ≡ 0
    → ar_list m dir (some (armagt ++ rest)) ≡ ar_thin_list dir rest m.header_garbage
unfolding ar_list on_magic str_eq
ar_list-archive m dir rest e = rw (e, ar_list) refl

-- When the archive can be made anew, each file is there, every name is plain and all that is stored or
-- printed fits its place, and the byte in memory behind the magic is 0: the archive is written, and
-- the list of it gives the stored name of each member in order, in the directory of the archive.
pub ar_list-ar_replace :
    (fs : Files) (m : Memory) (size : Bytes → ℕ) (archive dir : Bytes) (members : List Bytes)
    (create : _)
    → fs.access archive ≡ false
    → fs.opened archive create ≡ some (open_output [])
    → m.behind ≡ 0
    → length m.header_garbage ≡ 60
    → length dir + 2 ≤ path_max
    → length (itoa (length (name_table members))) ≤ 10
    → length (name_table members) < 2 ^ 64
    → Recorded fs size [] members
    → Listable dir [] members
    → (file : Bytes) × (ar_replace fs archive members true create
        ≡ (returns exit_success, some (open_output file)))
      × (ar_list m dir (some file) ≡ (returns exit_success, listing dir members))
ar_list-ar_replace fs m size archive dir members create fresh opened zero_behind whole room fits
      small r h =
    let head = table_header (length (name_table members)) in
    let heads = headers_after size [] members in
    let parts : ((armagt ++ head) ++ name_table members) ++ heads
        ≡ armagt ++ (head ++ (name_table members ++ heads)) =
      simp append_assoc in
    (
      ((armagt ++ head) ++ name_table members) ++ heads,
      ar_replace-archive fs size archive members create fresh opened fits r,
      ap (λ file. ar_list m dir (some file)) parts
          ∙ (ar_list-archive m dir (head ++ (name_table members ++ heads)) zero_behind
              ∙ ar_thin_list-members dir size members m.header_garbage whole room fits small h),
    )
