-- ===== src/Dd.antt =====
-- programs/dd.c: copying in blocks, and the parameters of the command line.
mod Samples
pub mod Copy
pub use Copy.*
use punchcardos.Numbers.{Parsed, size, illegal, overflow, parse_number, long_max}
use punchcardos.Prelude.{
  ℕ, ◌+◌, ◌*◌, ◌%◌, ◌^◌, Bool, true, false, not, ◌||◌, Option, none, some, Bytes, List, [], ◌∷◌,
  ltb, leb, ◌==◌, if◌then◌else◌, codes, str_eq,
}
use punchcardos.Sys.{ReadEvent, Output, Outcome, returns, undefined, out_of_fuel}

-- getNum(cp)
unfoldable pub get_num : Bytes → Parsed
unfolding parse_number
get_num s = parse_number b'k' s

-- The variables that the parameters set. `count` is none for -1.
pub record Params : Type 0 where
  pub in_file : Option Bytes
  pub out_file : Option Bytes
  pub block_size : ℕ
  pub count : Option ℕ
  pub seek : ℕ
  pub skip : ℕ

abbrev pub defaults : Params
defaults = record {
  in_file = none;
  out_file = none;
  block_size = 512;
  count = none;
  seek = 0;
  skip = 0;
}

-- `strchr(str, '=')`: what stands before and behind it.
unfoldable pub split_at_equals : Bytes → Option (Bytes × Bytes)
split_at_equals [] = none
split_at_equals (c ∷ s) = elim (c == b'=') [
  | true ↦ some ([], s)
  | false ↦ elim (split_at_equals s) [ none ↦ none | some (name, value) ↦ some (c ∷ name, value) ]
]

-- The end of one parameter: the variables, return 1, or undefined behaviour.
pub data Set : Type 0 where
  set : Params → Set
  refused : Set
  broken : Set

set_in : Bytes → Params → Option Bytes → Set
set_in value p none = set (record p { in_file = some value })
set_in value p (some old) = refused

set_out : Bytes → Params → Option Bytes → Set
set_out value p none = set (record p { out_file = some value })
set_out value p (some old) = refused

-- int blockSize = getNum(cp), which keeps the low 32 bits, and must be positive.
set_block_size : Params → Parsed → Set
set_block_size p (size n) =
    let low = n % 2 ^ 32 in
    if low == 0
    then refused
    else if ltb low (2 ^ 31)
    then set (record p { block_size = low })
    else refused
set_block_size p illegal = refused
set_block_size p overflow = broken

set_number : (ℕ → Params) → Parsed → Set
set_number change (size n) = set (change n)
set_number change illegal = refused
set_number change overflow = broken

-- The table `params` and the switch on what is found in it.
unfoldable pub set_param : Bytes → Bytes → Params → Set
unfolding str_eq get_num set_in set_out set_block_size set_number
set_param name value p =
    if str_eq name (codes "if")
    then set_in value p p.in_file
    else if str_eq name (codes "of")
    then set_out value p p.out_file
    else if str_eq name (codes "bs")
    then set_block_size p (get_num value)
    else if str_eq name (codes "count")
    then set_number (λ n. record p { count = some n }) (get_num value)
    else if str_eq name (codes "seek")
    then set_number (λ n. record p { seek = n }) (get_num value)
    else if str_eq name (codes "skip")
    then set_number (λ n. record p { skip = n }) (get_num value)
    else refused

one_param : Option (Bytes × Bytes) → Params → Set
unfolding set_param
one_param none p = refused
one_param (some (name, value)) p = set_param name value p

after_param : Set → (Params → Set) → Set
after_param (set p) again = again p
after_param refused again = refused
after_param broken again = broken

-- while (--argc > 0)
unfoldable pub parse_params : List Bytes → Params → Set
unfolding after_param one_param split_at_equals
parse_params [] p = set p
parse_params (arg ∷ args) p =
    after_param (one_param (split_at_equals arg) p) (λ p'. parse_params args p')

-- The files of the system: the standard ones, opening a file to read or to write, and `lseek` on the
-- output, which fails on a pipe.
pub record Files : Type 0 where
  pub stdin : Input
  pub stdout : Output
  pub open_in : Bytes → Option Input
  pub open_out : Bytes → Option Output
  pub seek_out : ℕ → Output → Option Output

-- The end of the program: its status, the counts that it prints, and the output; `none` for a run
-- that ends before `cleanup`.
pub record Ended : Type 0 where
  pub status : ℕ
  pub copied : Option Copied

abbrev ended_early : Ended
ended_early = record { status = 1; copied = none }

abbrev cleanup_failed : Output → Ended
cleanup_failed o = record {
  status = 1;
  copied = some (record { failed_flag = true; records = no_records; out = o });
}

-- close(outFd) < 0 sets r as well; `closes` tells how it goes.
finish : Bool → Option Copied → Outcome Ended
finish closes none = out_of_fuel
finish closes (some c) =
    returns (record { status = if c.failed_flag || not closes then 1 else 0; copied = some c })

copy_from : Bool → Params → List ReadEvent → Option Output → Output → Outcome Ended
unfolding finish copy_loop
copy_from closes p es none o = returns (cleanup_failed o)
copy_from closes p es (some o') o = finish closes (copy_loop p.block_size p.count es no_records o')

-- if (seekVal) …, where the product may leave the range of a `long`.
seek_and_copy : Bool → Files → Params → Option (List ReadEvent) → Output → Outcome Ended
unfolding copy_from
seek_and_copy closes fs p none o = returns (cleanup_failed o)
seek_and_copy closes fs p (some es) o =
    if p.seek == 0
    then copy_from closes p es (some o) o
    else if leb (p.seek * p.block_size) long_max
    then copy_from closes p es (fs.seek_out (p.seek * p.block_size) o) o
    else undefined

sought : ℕ → Input → Option (List ReadEvent) → Option (List ReadEvent)
unfolding skip_loop
sought skip i (some es) = some es
sought skip i none = skip_loop skip i.reads

-- if (skipVal) …
skip_and_copy : Bool → Files → Params → Input → Output → Outcome Ended
unfolding seek_and_copy sought
skip_and_copy closes fs p i o =
    if p.skip == 0
    then seek_and_copy closes fs p (some i.reads) o
    else if leb (p.skip * p.block_size) long_max
    then seek_and_copy closes fs p (sought p.skip i (i.input_at (p.skip * p.block_size))) o
    else undefined

on_output : Bool → Files → Params → Input → Option Output → Outcome Ended
unfolding skip_and_copy
on_output closes fs p i none = returns ended_early
on_output closes fs p i (some o) = skip_and_copy closes fs p i o

opened_out : Files → Option Bytes → Option Output
opened_out fs none = some fs.stdout
opened_out fs (some name) = fs.open_out name

opened_in : Files → Option Bytes → Option Input
opened_in fs none = some fs.stdin
opened_in fs (some name) = fs.open_in name

on_input : Bool → Files → Params → Option Input → Outcome Ended
unfolding on_output opened_out
on_input closes fs p none = returns ended_early
on_input closes fs p (some i) = on_output closes fs p i (opened_out fs p.out_file)

with_params : Bool → Files → Set → Outcome Ended
unfolding on_input opened_in
with_params closes fs refused = returns ended_early
with_params closes fs broken = undefined
with_params closes fs (set p) = on_input closes fs p (opened_in fs p.in_file)

-- `main`, on the arguments behind the program's name.
unfoldable pub main : Bool → Files → List Bytes → Outcome Ended
unfolding with_params parse_params
main closes fs args = with_params closes fs (parse_params args defaults)
