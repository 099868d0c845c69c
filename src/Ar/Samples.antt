-- ===== src/Ar/Samples.antt =====
-- Runs of programs/ar.c with two members.
use punchcardos.Ar.Archive.{name_table, headers_after, ar_replace-archive}
use punchcardos.Ar.Listing.{atol_from, Memory, ar_list}
use punchcardos.Ar.Trip.{ar_list-ar_replace}
use punchcardos.Ar.Main.{main}
use punchcardos.Ar.{Files, armagt, table_header, header, stored_name, field, ar_replace}
use punchcardos.Prelude.{
  ◌≡◌, refl, true, false, List, [], ◌∷◌, ◌++◌, Bytes, none, some, length, codes, str_eq, until_nul,
  is_prefix, arith,
}
use punchcardos.Sys.{open_output, returns, exit_success}
use punchcardos.Timeconst.Decimal.{itoa}
use punchcardos.Timeconst.Fixed.{wrap}

abbrev fresh : Files
fresh = record {
  access = λ name. false;
  opened = λ name create. some (open_output []);
  stat = λ name. some 7;
}

abbrev members : List Bytes
members = codes "./a.o" ∷ codes "bc.o" ∷ []

abbrev archive : Bytes
archive =
    ((armagt ++ table_header 11) ++ codes "a.o/\nbc.o/\n") ++ headers_after (λ name. 7) [] members

abbrev zero_memory : Memory
zero_memory = record { behind = 0; header_garbage = field 60 [] }

list_run :
    ar_list zero_memory (codes "lib") (some archive)
    ≡ (returns exit_success, codes "lib/a.o\nlib/bc.o\n")
unfolding ar_list str_eq header is_prefix atol_from itoa wrap until_nul stored_name
list_run = refl

main_run :
    main
      (record {
        files = fresh;
        memory = zero_memory;
        file = λ name. none;
        dirname = λ name. codes ".";
      })
      (codes "rt" ∷ codes "x.a" ∷ members)
    ≡ (returns 1, (none, []))
unfolding main
main_run = refl

ar_replace-archive_example : ar_replace fresh (codes "x.a") members true true ≡ (
  returns exit_success,
  some (
      open_output (
        ((armagt ++ table_header (length (name_table members))) ++ name_table members)
        ++ headers_after (λ name. 7) [] members)),
)
unfolding itoa wrap stored_name
ar_replace-archive_example =
    ar_replace-archive fresh (λ name. 7) (codes "x.a") members true refl refl (omega arith)
      ((refl, (omega arith, omega arith)), ((refl, (omega arith, omega arith)), tt))

ar_list-ar_replace_example :
    (file : Bytes) × (ar_replace fresh (codes "lib/x.a") members true true
      ≡ (returns exit_success, some (open_output file)))
    × (ar_list zero_memory (codes "lib") (some file)
        ≡ (returns exit_success, codes "lib/a.o\nlib/bc.o\n"))
unfolding itoa wrap stored_name field
ar_list-ar_replace_example =
    ar_list-ar_replace fresh zero_memory (λ name. 7) (codes "lib/x.a") (codes "lib") members true
      refl refl refl refl (omega arith) (omega arith) (omega arith)
      ((refl, (omega arith, omega arith)), ((refl, (omega arith, omega arith)), tt))
      (
        (
          omega arith,
          (
            (
              (omega arith, (omega arith, omega arith)),
              (
                (omega arith, (omega arith, omega arith)),
                ((omega arith, (omega arith, omega arith)), tt),
              ),
            ),
            (omega arith, (omega arith, omega arith)),
          ),
        ),
        (
          (
            omega arith,
            (
              (
                (omega arith, (omega arith, omega arith)),
                (
                  (omega arith, (omega arith, omega arith)),
                  (
                    (omega arith, (omega arith, omega arith)),
                    ((omega arith, (omega arith, omega arith)), tt),
                  ),
                ),
              ),
              (omega arith, (omega arith, omega arith)),
            ),
          ),
          tt,
        ),
      )
