-- ===== src/Xargs/Search.antt =====
-- Where resolve_executable_path of programs/xargs.c finds a command.
use punchcardos.Prelude.{
  ◌+◌, ◌≤◌, ◌≡◌, ◌≢◌, refl, ◌∙◌, Bool, true, false, List, [], ◌∷◌, ◌++◌, Bytes, some, length,
  if◌then◌else◌, codes, append_assoc, append-nil, Bool-cases, inl, inr, ==_ne, le→leb,
}
use punchcardos.Sys.{returns}
use punchcardos.Xargs.{fullpath_size, beside, resolve_loop, resolve_executable_path}

abbrev pub NoColon : Bytes → Type 0
NoColon [] = Unit {0}
NoColon (c ∷ s) = (c ≢ b':') × NoColon s

-- Directories that a path can name, with which the command fits the buffer.
abbrev pub Directories : Bytes → List Bytes → Type 0
Directories cmd [] = Unit {0}
Directories cmd (d ∷ dirs) =
    (NoColon d × (length d + length cmd + 2 ≤ fullpath_size)) × Directories cmd dirs

abbrev pub with_colons : List Bytes → Bytes
with_colons [] = []
with_colons (d ∷ dirs) = d ++ b':' ∷ with_colons dirs

abbrev pub first_executable : (Bytes → Bool) → Bytes → List Bytes → Bytes
first_executable access cmd [] = codes "./" ++ cmd
first_executable access cmd (d ∷ dirs) =
    if access (d ++ b'/' ∷ cmd) then d ++ b'/' ∷ cmd else first_executable access cmd dirs

module _ (access : Bytes → Bool) (cmd : Bytes) where
  up_to_colon :
      (dir d rest : Bytes)
      → NoColon d
      → resolve_loop access cmd dir (d ++ rest) ≡ resolve_loop access cmd (dir ++ d) rest
  unfolding resolve_loop
  up_to_colon dir [] rest h = rw (append-nil dir) refl
  up_to_colon dir (c ∷ d) rest h =
      rw (==_ne c b':' h.0, resolve_loop)
        (rw (append_assoc dir (c ∷ []) d) at (up_to_colon (dir ++ c ∷ []) d rest h.1))

  at_colon_found :
      (dir path : Bytes)
      → length dir + length cmd + 2 ≤ fullpath_size
      → access (dir ++ b'/' ∷ cmd) ≡ true
      → resolve_loop access cmd dir (b':' ∷ path) ≡ returns (dir ++ b'/' ∷ cmd)
  unfolding resolve_loop
  at_colon_found dir path h e =
      rw (le→leb (length dir + length cmd + 2) fullpath_size h, resolve_loop) (rw e refl)

  at_colon_next :
      (dir path : Bytes)
      → length dir + length cmd + 2 ≤ fullpath_size
      → access (dir ++ b'/' ∷ cmd) ≡ false
      → resolve_loop access cmd dir (b':' ∷ path) ≡ resolve_loop access cmd [] path
  unfolding resolve_loop
  at_colon_next dir path h e =
      rw (le→leb (length dir + length cmd + 2) fullpath_size h, resolve_loop) (rw e refl)

  resolve_loop-last : (last : Bytes) → NoColon last → resolve_loop access cmd [] last ≡ beside cmd
  unfolding resolve_loop
  resolve_loop-last last h = rw (append-nil last) at (up_to_colon [] last [] h)

  resolve_loop-first :
      (dirs : List Bytes) (last : Bytes)
      → Directories cmd dirs
      → NoColon last
      → length cmd + 3 ≤ fullpath_size
      → resolve_loop access cmd [] (with_colons dirs ++ last)
        ≡ returns (first_executable access cmd dirs)
  unfolding beside
  resolve_loop-first [] last h end fits =
      resolve_loop-last last end ∙ rw (le→leb (length cmd + 3) fullpath_size fits, beside) refl
  resolve_loop-first (d ∷ dirs) last h end fits =
      let rest = with_colons dirs ++ last in
      rw (append_assoc d (b':' ∷ with_colons dirs) last) (
        up_to_colon [] d (b':' ∷ rest) h.0.0 ∙ elim (Bool-cases (access (d ++ b'/' ∷ cmd))) [
          | inl found ↦ at_colon_found d rest h.0.1 found ∙ rw found refl
          | inr not_found ↦
              at_colon_next d rest h.0.1 not_found
              ∙ (resolve_loop-first dirs last h.1 end fits ∙ rw not_found refl)
        ])

  -- For a command and directories that fit the buffer: the result is the command in the first
  -- directory of PATH in which it can be executed, and in the working directory when there is none.
  -- What stands behind the last colon of PATH is never looked at.
  pub resolve_executable_path-first :
      (dirs : List Bytes) (last : Bytes)
      → Directories cmd dirs
      → NoColon last
      → length cmd + 3 ≤ fullpath_size
      → resolve_executable_path access cmd (some (with_colons dirs ++ last))
        ≡ returns (first_executable access cmd dirs)
  unfolding resolve_executable_path
  resolve_executable_path-first dirs last h end fits = resolve_loop-first dirs last h end fits
