-- ===== src/Cmp/Samples.antt =====
-- Runs of programs/cmp.c on concrete files.
use punchcardos.Cmp.Compare.{bytes_of, difference, Opened}
use punchcardos.Cmp.Ends.{cmp_loop-ends}
use punchcardos.Cmp.Result.{cmp-same, cmp-difference}
use punchcardos.Cmp.{
  Store, cmp_loop, out_of_rounds, Flags, Files, initial, message, cmp, exit_same, exit_different,
}
use punchcardos.Prelude.{
  ◌≡◌, ◌≢◌, ◌↔◌, refl, true, false, none, some, [], if◌then◌else◌, str_eq, codes, arith,
}
use punchcardos.Sys.{returns, open_output}

abbrev files : Files
files = record {
  stdin = [];
  open_file = λ name.
      if str_eq name (codes "f")
      then some (bytes_of (codes "a\nbc"))
      else if str_eq name (codes "g")
      then some (bytes_of (codes "a\nbd"))
      else none;
  size_of = λ name.
      if str_eq name (codes "f") then some 4 else if str_eq name (codes "g") then some 4 else none;
}

abbrev flags : Flags
flags = record { print_bytes = true; verbose = false; silent = false }

both : Opened files (codes "f") (codes "g") (codes "a\nbc") (codes "a\nbd")
unfolding str_eq
both = record {
  named = refl;
  first_file = refl;
  second_file = refl;
  first_size = refl;
  second_size = refl;
}

cmp-same_example :
    ((cmp 0 0 files (some (codes "f")) (some (codes "g")) flags (open_output [])).0
      ≡ returns exit_same)
    ↔ (codes "a\nbc" ≡ codes "a\nbd")
cmp-same_example =
    cmp-same 0 0 files (codes "f") (codes "g") (codes "a\nbc") (codes "a\nbd") flags
      (open_output []) both

cmp-difference_example :
    cmp 0 0 files (some (codes "f")) (some (codes "g")) flags (open_output []) ≡ (
      returns exit_different,
      open_output (
          message
            (codes "f")
            (codes "g")
            flags
            (difference (codes "a\nb") b'c' b'd' (initial 0 0))),
    )
cmp-difference_example =
    cmp-difference 0 0 files (codes "f") (codes "g") (codes "a\nb") [] [] b'c' b'd' flags []
      (ground arith) refl refl both

-- Both descriptors are the standard input.
abbrev stdin : Store
stdin = λ fd. bytes_of (codes "abc")

cmp_loop-ends_example : cmp_loop 4 0 0 stdin (initial 0 0) ≢ out_of_rounds
unfolding bytes_of
cmp_loop-ends_example = cmp_loop-ends 4 0 0 stdin (initial 0 0) (omega arith)
