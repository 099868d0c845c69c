-- ===== src/Cut/Args.antt =====
-- The command line of programs/cut.c: the loop over `argv` in `main`, and what follows it.
use punchcardos.Cut.Ranges.{Range, parse_range}
use punchcardos.Cut.Select.{Flags, CutType, unset, bytes, chars, fields, Io, cut}
use punchcardos.Prelude.{
  ℕ, zero, suc, true, false, not, ◌&&◌, Option, none, some, Bytes, List, [], ◌∷◌, ◌==◌,
  if◌then◌else◌, length, drop, codes, str_eq, is_prefix, deref,
}
use punchcardos.Sys.{
  ByteEvent, Output, Outcome, returns, exits, undefined, out_of_fuel, exit_success, exit_failure,
}

pub data NextArg : Type 0 where
  nothing list_arg delim_arg out_delim_arg : NextArg

-- The variables of `main` that the loop sets. `list` is a null pointer at first.
pub record Options : Type 0 where
  pub flags : Flags
  pub delim : Bytes
  pub output_delim : Bytes
  pub list : Option Bytes
  pub cut_type : CutType
  pub next_arg : NextArg

abbrev pub no_flags : Flags
no_flags = record { zero_term = false; only_delim = false }

abbrev pub defaults : Options
defaults = record {
  flags = no_flags;
  delim = codes "\t";
  output_delim = codes "\t";
  list = none;
  cut_type = unset;
  next_arg = nothing;
}

-- One round: the loop goes on, it ends at this argument (`break`), or the program ends.
pub data Round : Type 0 where
  continue : Options → Round
  break : Round
  fail : Round

abbrev wants_list : CutType → Options → Round
wants_list t o = continue (record o { cut_type = t; next_arg = list_arg })

abbrev has_list : CutType → Bytes → Options → Round
has_list t l o = continue (record o { cut_type = t; list = some l })

abbrev set_only_delim : Options → Round
set_only_delim o = let f = o.flags in continue (record o { flags = record f { only_delim = true } })

abbrev set_zero_term : Options → Round
set_zero_term o = let f = o.flags in continue (record o { flags = record f { zero_term = true } })

-- From `parse_long_args` on.
long_arg : Bytes → Options → Round
unfolding str_eq is_prefix
long_arg arg o =
    if str_eq arg (codes "--bytes")
    then wants_list bytes o
    else if str_eq arg (codes "--chars")
    then wants_list chars o
    else if str_eq arg (codes "--fields")
    then wants_list fields o
    else if str_eq arg (codes "--delimiter")
    then continue (record o { next_arg = delim_arg })
    else if str_eq arg (codes "--output-delimiter")
    then continue (record o { next_arg = out_delim_arg })
    else if str_eq arg (codes "--complement")
    then fail
    else if str_eq arg (codes "--only-delimited")
    then set_only_delim o
    else if str_eq arg (codes "--zero-terminated")
    then set_zero_term o
    else if is_prefix (codes "--bytes=") arg
    then has_list bytes (drop 8 arg) o
    else if is_prefix (codes "--chars=") arg
    then has_list chars (drop 8 arg) o
    else if is_prefix (codes "--fields=") arg
    then has_list fields (drop 9 arg) o
    else if is_prefix (codes "--delimiter=") arg
    then continue (record o { delim = drop 12 arg })
    else if is_prefix (codes "--output-delimiter=") arg
    then continue (record o { output_delim = drop 19 arg })
    else if deref arg == b'-'
    then (if length arg == 1 then break else fail)
    else break

-- From `parse_short_args` on; a pair of `-` and an unknown letter is tried as a long argument.
short_arg : ℕ → Bytes → Options → Round
unfolding long_arg
short_arg c arg o =
    if c == b'b'
    then wants_list bytes o
    else if c == b'c'
    then wants_list chars o
    else if c == b'd'
    then continue (record o { next_arg = delim_arg })
    else if c == b'f'
    then wants_list fields o
    else if c == b'n'
    then continue o
    else if c == b's'
    then set_only_delim o
    else if c == b'z'
    then set_zero_term o
    else long_arg arg o

unfoldable pub option_arg : Bytes → Options → Round
unfolding short_arg
option_arg arg o =
    if length arg == 2 && deref arg == b'-'
    then short_arg (deref (drop 1 arg)) arg o
    else long_arg arg o

-- An argument that the one before asked for.
unfoldable pub asked_arg : NextArg → Bytes → Options → Round
unfolding option_arg
asked_arg nothing arg o = option_arg arg o
asked_arg list_arg arg o = continue (record o { list = some arg; next_arg = nothing })
asked_arg delim_arg arg o = continue (record o { delim = arg; next_arg = nothing })
asked_arg out_delim_arg arg o = continue (record o { output_delim = arg; next_arg = nothing })

after_round :
    Round
    → Bytes
    → List Bytes
    → (Options → Option (Options × List Bytes))
    → Options
    → Option (Options × List Bytes)
after_round (continue o') arg rest again o = again o'
after_round break arg rest again o = some (o, arg ∷ rest)
after_round fail arg rest again o = none

-- for (; i < argc; i++) …: the options, and the arguments from where the loop stopped; `none` if the
-- program ended in it.
unfoldable pub parse_args : List Bytes → Options → Option (Options × List Bytes)
unfolding after_round asked_arg
parse_args [] o = some (o, [])
parse_args (arg ∷ rest) o =
    let skip = parse_args rest o in
    let round = after_round (asked_arg o.next_arg arg o) arg rest (parse_args rest) o in
    if length arg == 0 then skip else round

-- The files of the system, each with what reading it gives.
pub record Files : Type 0 where
  pub stdin : List ByteEvent
  pub open_file : Bytes → Option (List ByteEvent)

abbrev run_cut : ℕ → Options → Range → Io → Outcome ℕ × Io
run_cut garbage o range io =
    cut garbage o.cut_type o.flags (deref o.delim) (deref o.output_delim) range io

-- The end of one file in the loop over the files.
after_file : Outcome ℕ × Io → (Bytes → Output → Outcome ℕ × Output) → Outcome ℕ × Output
after_file (returns zero, io) again = again io.reader.linebuf io.out
after_file (returns (suc n), io) again = (returns exit_failure, io.out)
after_file (exits n, io) again = (exits n, io.out)
after_file (undefined, io) again = (undefined, io.out)
after_file (out_of_fuel, io) again = (out_of_fuel, io.out)

-- while (i < argc) …
unfoldable pub cut_files :
    ℕ → Files → Options → Range → List Bytes → Bytes → Output → Outcome ℕ × Output
unfolding after_file cut
cut_files garbage fs o range [] linebuf out = (returns exit_success, out)
cut_files garbage fs o range (name ∷ rest) linebuf out = elim (fs.open_file name) [
  | none ↦ (returns exit_failure, out)
  | some es ↦
      after_file
        (run_cut garbage o range
          (record { reader = record { stream = es; linebuf = linebuf }; out = out }))
        (cut_files garbage fs o range rest)
]

-- The input is the standard input if no file is named.
cut_inputs : ℕ → Files → Options → Range → List Bytes → Output → Outcome ℕ × Output
unfolding cut_files cut
cut_inputs garbage fs o range [] out =
    let io : Io = record { reader = record { stream = fs.stdin; linebuf = [] }; out = out } in
    let (status, io') = run_cut garbage o range io in (status, io'.out)
cut_inputs garbage fs o range (name ∷ rest) out = cut_files garbage fs o range (name ∷ rest) [] out

cut_range : ℕ → Files → Options → Option Range → List Bytes → Output → Outcome ℕ × Output
unfolding cut_inputs
cut_range garbage fs o none rest out = (undefined, out)
cut_range garbage fs o (some range) rest out = cut_inputs garbage fs o range rest out

after_args : ℕ → Files → Option (Options × List Bytes) → Output → Outcome ℕ × Output
unfolding cut_range parse_range
after_args garbage fs none out = (returns exit_failure, out)
after_args garbage fs (some (o, rest)) out =
    if not (length o.delim == 1)
    then (returns exit_failure, out)
    else if not (length o.output_delim == 1)
    then (returns exit_failure, out)
    else cut_range garbage fs o (parse_range o.list) rest out

-- `main`, on the arguments behind the program's name.
unfoldable pub main : ℕ → Files → List Bytes → Output → Outcome ℕ × Output
unfolding after_args parse_args
main garbage fs [] out = (returns exit_failure, out)
main garbage fs (arg ∷ args) out = after_args garbage fs (parse_args (arg ∷ args) defaults) out
