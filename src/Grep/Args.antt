-- ===== src/Grep/Args.antt =====
-- The command line of programs/grep.c.
use punchcardos.Grep.Search.{Flags}
use punchcardos.Prelude.{
  ℕ, true, false, ◌&&◌, ◌||◌, Option, none, some, Bytes, List, [], ◌∷◌, ltb, ◌==◌, if◌then◌else◌,
  length, drop, codes, str_eq, is_prefix, deref,
}

pub data NextArg : Type 0 where
  nothing file_arg : NextArg

pub record Options : Type 0 where
  pub flags : Flags
  pub pattern_file : Option Bytes
  pub next_arg : NextArg

abbrev pub defaults : Options
defaults = record {
  flags = record { invert = false; quiet = false; fixed = false; caseign = false };
  pattern_file = none;
  next_arg = nothing;
}

abbrev set_fixed : Options → Options
set_fixed o = let f = o.flags in record o { flags = record f { fixed = true } }

abbrev set_invert : Options → Options
set_invert o = let f = o.flags in record o { flags = record f { invert = true } }

abbrev set_quiet : Options → Options
set_quiet o = let f = o.flags in record o { flags = record f { quiet = true } }

abbrev set_caseign : Options → Options
set_caseign o = let f = o.flags in record o { flags = record f { caseign = true } }

-- One letter of a short argument; `none` prints the usage.
short_flag : ℕ → Options → Option Options
short_flag c o =
    if c == b'F'
    then some (set_fixed o)
    else if c == b'v'
    then some (set_invert o)
    else if c == b'q'
    then some (set_quiet o)
    else if c == b'y' || c == b'i'
    then some (set_caseign o)
    else if c == b'f'
    then some (record o { next_arg = file_arg })
    else none

-- for (int j = 1; j < arglen; j++)
unfoldable pub short_args : Bytes → Options → Option Options
unfolding short_flag
short_args [] o = some o
short_args (c ∷ cs) o = elim (short_flag c o) [ none ↦ none | some o' ↦ short_args cs o' ]

-- From `parse_long_args` on, for an argument with two dashes.
long_arg : Bytes → Options → Option Options
unfolding str_eq is_prefix
long_arg arg o =
    if str_eq arg (codes "--fixed-strings")
    then some (set_fixed o)
    else if str_eq arg (codes "--invert-match")
    then some (set_invert o)
    else if str_eq arg (codes " --quiet") || str_eq arg (codes "--silent")
    then some (set_quiet o)
    else if str_eq arg (codes "--ignore-case")
    then some (set_caseign o)
    else if str_eq arg (codes "--file")
    then some (record o { next_arg = file_arg })
    else if is_prefix (codes "--file=") arg
    then some (record o { pattern_file = some (drop 7 arg) })
    else none

-- One round: the loop goes on, it ends at this argument (`break`), or the program ends.
pub data Round : Type 0 where
  continue : Options → Round
  break : Round
  fail : Round

continue_with : Option Options → Round
continue_with none = fail
continue_with (some o) = continue o

option_arg : Bytes → Options → Round
unfolding continue_with short_args long_arg
option_arg arg o =
    if ltb 1 (length arg) && deref arg == b'-'
    then (if deref (drop 1 arg) == b'-'
        then continue_with (long_arg arg o)
        else continue_with (short_args (drop 1 arg) o))
    else break

unfoldable pub asked_arg : NextArg → Bytes → Options → Round
unfolding option_arg
asked_arg nothing arg o = option_arg arg o
asked_arg file_arg arg o = continue (record o { pattern_file = some arg; next_arg = nothing })

after_round :
    Round
    → List Bytes
    → (Options → Option (Options × List Bytes))
    → Options
    → Option (Options × List Bytes)
after_round (continue o') args again o = again o'
after_round break args again o = some (o, args)
after_round fail args again o = none

-- for (i = 1; i < argc; i++): the options and the arguments from where the loop stopped.
unfoldable pub parse_args : List Bytes → Options → Option (Options × List Bytes)
unfolding after_round asked_arg
parse_args [] o = some (o, [])
parse_args (arg ∷ rest) o =
    let skip = parse_args rest o in
    let round = after_round (asked_arg o.next_arg arg o) (arg ∷ rest) (parse_args rest) o in
    if length arg == 0 then skip else round
