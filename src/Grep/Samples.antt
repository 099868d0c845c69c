-- ===== src/Grep/Samples.antt =====
-- Runs of programs/grep.c on concrete lines.
use punchcardos.Grep.Plain.{is_plain, has_no_nul, folded, match-plain}
use punchcardos.Grep.Search.Lines.{are_lines, lines_text, wanted, listed, is_any}
use punchcardos.Grep.Search.Result.{grep-wanted}
use punchcardos.Grep.Search.{Flags, status, grep}
use punchcardos.Grep.{match, contains}
use punchcardos.Prelude.{◌≡◌, refl, true, false, some, Bytes, List, [], ◌∷◌, ◌++◌, codes}
use punchcardos.Sys.{got, open_output, returns}

abbrev flags : Flags
flags = record { invert = false; quiet = false; fixed = false; caseign = true }

abbrev rest : List Bytes
rest = codes "Foo bar" ∷ codes "baz" ∷ []

grep-wanted_example :
    grep
      (some (codes "foo"))
      flags
      (got (lines_text (codes "a foo" ∷ rest) (codes "foo")) ∷ [])
      (open_output [])
    ≡ record {
      result = returns (status (is_any (wanted flags (codes "foo") (codes "a foo" ∷ rest))));
      stdin = [];
      out = open_output (listed flags (wanted flags (codes "foo") (codes "a foo" ∷ rest)));
    }
unfolding is_plain are_lines
grep-wanted_example =
    grep-wanted flags (codes "foo") (codes "a foo") rest (codes "foo") [] refl refl refl

match-plain_example :
    match false true (codes "Oo") (codes "a foo" ++ 0 ∷ [])
    ≡ returns (contains (folded true (codes "Oo")) (folded true (codes "a foo")))
unfolding is_plain has_no_nul
match-plain_example = match-plain false true (codes "Oo") (codes "a foo") [] refl refl
