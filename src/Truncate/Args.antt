-- ===== src/Truncate/Args.antt =====
-- `main` of programs/truncate.c: options and files in one loop.
use punchcardos.Numbers.{Parsed, size, illegal, overflow}
use punchcardos.Prelude.{
  ℕ, zero, suc, Bool, true, false, ◌||◌, Option, none, some, Bytes, List, [], ◌∷◌, ◌==◌,
  if◌then◌else◌, length, drop, deref, codes, is_digit, str_eq, is_prefix,
}
use punchcardos.Sys.{Outcome, returns, exits, undefined, out_of_fuel, exit_success, exit_failure}
use punchcardos.Truncate.{Host, Disk, set_errno, parse_size, do_truncate}

pub data ExpectOpt : Type 0 where
  nothing size_opt ref_opt : ExpectOpt

pub record Options : Type 0 where
  pub no_create : Bool
  pub io_blocks : Bool
  pub length_arg : ℕ
  pub op : ℕ
  pub expect : ExpectOpt

abbrev pub defaults : Options
defaults = record {
  no_create = false;
  io_blocks = false;
  length_arg = 0;
  op = b'=';
  expect = nothing;
}

-- One round of the loop: it goes on with other options and another disk, or the program ends.
pub data Round : Type 0 where
  go_on : Options → Disk → Round
  stop : Outcome ℕ → Disk → Round

abbrev fail : Disk → Round
fail d = stop (returns exit_failure) d

parsed : Parsed → ℕ → Options → Disk → Round
parsed (size n) op o d = go_on (record o { length_arg = n; op = op; expect = nothing }) d
parsed illegal op o d = fail d
parsed overflow op o d = stop undefined d

-- The operand in front of a size, and the size.
size_arg : Bytes → Options → Disk → Round
unfolding parsed parse_size
size_arg arg o d =
    if is_digit (deref arg)
    then parsed (parse_size arg) o.op o d
    else parsed (parse_size (drop 1 arg)) (deref arg) o d

reference : Option Bytes → Options → Disk → Round
reference none o d = fail (set_errno true d)
reference (some content) o d = go_on (record o { length_arg = length content; expect = nothing }) d

-- stat(arg, &ref_st)
ref_arg : Host → Bytes → Options → Disk → Round
unfolding reference
ref_arg h arg o d =
    if h.stat_denied arg then fail (set_errno false d) else reference (d.file arg) o d

truncated : Outcome ℕ × Disk → Options → Round
truncated (returns zero, d) o = go_on o d
truncated (returns (suc n), d) o = fail d
truncated (exits n, d) o = stop (exits n) d
truncated (undefined, d) o = stop undefined d
truncated (out_of_fuel, d) o = stop out_of_fuel d

is_one_of : Bytes → Bytes → Bytes → Bool
unfolding str_eq
is_one_of arg long short = str_eq arg long || str_eq arg short

plain_arg : Host → ℕ → Bytes → Options → Disk → Round
unfolding is_one_of size_arg ref_arg truncated do_truncate is_prefix
plain_arg h garbage arg o d =
    if is_one_of arg (codes "--no-create") (codes "-c")
    then go_on (record o { no_create = true }) d
    else if is_one_of arg (codes "--io-blocks") (codes "-o")
    then go_on (record o { io_blocks = true }) d
    else if str_eq arg (codes "-s")
    then go_on (record o { expect = size_opt }) d
    else if str_eq arg (codes "-r")
    then go_on (record o { expect = ref_opt }) d
    else if is_prefix (codes "--size=") arg
    then size_arg (drop 7 arg) o d
    else if is_prefix (codes "--reference=") arg
    then ref_arg h (drop 12 arg) o d
    else if is_prefix (codes "-") arg
    then fail d
    else truncated (do_truncate h garbage arg o.op o.length_arg o.no_create o.io_blocks d) o

by_expectation : ExpectOpt → Host → ℕ → Bytes → Options → Disk → Round
unfolding plain_arg
by_expectation nothing h garbage arg o d = plain_arg h garbage arg o d
by_expectation size_opt h garbage arg o d = size_arg arg o d
by_expectation ref_opt h garbage arg o d = ref_arg h arg o d

unfoldable pub round : Host → ℕ → Bytes → Options → Disk → Round
unfolding by_expectation
round h garbage arg o d =
    if is_one_of arg (codes "--help") (codes "-h") || str_eq arg (codes "-?")
    then stop (returns exit_success) d
    else by_expectation o.expect h garbage arg o d

-- for (int i = 1; i < argc; i++)
unfoldable pub args_loop : Host → ℕ → List Bytes → Options → Disk → Outcome ℕ × Disk
unfolding round
args_loop h garbage [] o d = (returns exit_success, d)
args_loop h garbage (arg ∷ args) o d =
    let skip = args_loop h garbage args o d in
    let more : Outcome ℕ × Disk = elim (round h garbage arg o d) [
      | go_on o' d' ↦ args_loop h garbage args o' d'
      | stop r d' ↦ (r, d')
    ] in
    if length arg == 0 then skip else more

-- `main`, on the arguments behind the program's name, with `errno` 0 at the start.
unfoldable pub main : Host → ℕ → List Bytes → Disk → Outcome ℕ × Disk
unfolding args_loop
main h garbage [] d = (returns exit_failure, d)
main h garbage (arg ∷ args) d = args_loop h garbage (arg ∷ args) defaults (set_errno false d)
