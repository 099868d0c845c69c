-- ===== src/Ar/Main.antt =====
-- main of programs/ar.c.
use punchcardos.Ar.Listing.{Memory, ar_list}
use punchcardos.Ar.{Files, ar_replace}
use punchcardos.Prelude.{
  Bool, true, false, List, [], ◌∷◌, Bytes, Option, none, some, ◌==◌, if◌then◌else◌, ℕ,
}
use punchcardos.Sys.{Output, Outcome, returns, exit_success, exit_failure}

-- SUBCMD_UNKNOWN and so on
pub data Subcommand : Type 0 where
  unknown_command : Subcommand
  replace_command : Subcommand
  list_command : Subcommand
  move_command : Subcommand

-- `type` with the two flags that the program looks at: FLAG_CREATE and FLAG_THIN.
pub record Options : Type 0 where
  pub type : Subcommand
  pub create : Bool
  pub thin : Bool

-- `none` for a second subcommand.
abbrev set_type : Subcommand → Options → Option Options
set_type t o = elim o.type [
  | unknown_command ↦ some (record o { type = t })
  | replace_command ↦ none
  | list_command ↦ none
  | move_command ↦ none
]

-- The switch for a letter. The letters s, P, i, D and S set flags that nothing looks at.
abbrev letter : ℕ → Options → Option Options
letter c o =
    if c == b'r'
    then set_type replace_command o
    else if c == b't'
    then set_type list_command o
    else if c == b'm'
    then set_type move_command o
    else if c == b'c'
    then some (record o { create = true })
    else if c == b'T'
    then some (record o { thin = true })
    else some o

unfoldable pub letters : Bytes → Options → Option Options
letters [] o = some o
letters (c ∷ s) o = elim (letter c o) [ none ↦ none | some o' ↦ letters s o' ]

-- How a run ends: the status, the archive as far as it has been written, and what has been printed.
abbrev pub Ended : Type 0
Ended = Outcome ℕ × (Option Output × Bytes)

-- What the program meets: the files, what stands in memory, the file of a name and the directory of a
-- name as dirname of the C library gives it.
pub record World : Type 0 where
  pub files : Files
  pub memory : Memory
  pub file : Bytes → Option Bytes
  pub dirname : Bytes → Bytes

subcommand : World → Bytes → List Bytes → Options → Ended
subcommand w archive members o = elim o.type [
  | unknown_command ↦ (returns exit_failure, (none, []))
  | replace_command ↦
      let run = ar_replace w.files archive members o.thin o.create in (run.0, (run.1, []))
  | list_command ↦
      let run = ar_list w.memory (w.dirname archive) (w.file archive) in (run.0, (none, run.1))
  | move_command ↦ (returns exit_success, (none, []))
]

-- The arguments behind the name of the program.
unfoldable pub main : World → List Bytes → Ended
unfolding letters subcommand
main w [] = (returns exit_failure, (none, []))
main w (arg ∷ []) = (returns exit_failure, (none, []))
main w (arg ∷ archive ∷ members) =
    elim (letters arg (record { type = unknown_command; create = false; thin = false })) [
      | none ↦ (returns exit_failure, (none, []))
      | some o ↦ subcommand w archive members o
    ]
