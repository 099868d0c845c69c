-- ===== src/Tr/Samples.antt =====
-- Runs of programs/tr.c on concrete sets.
use punchcardos.Prelude.{◌≡◌, refl, [], codes}
use punchcardos.Sys.{open_output, exit_success}
use punchcardos.Tr.Table.{IsSimple, simple_nil, simple_cons, occurs, no_clash, feed, tr-tr}
use punchcardos.Tr.{tr}

xyz-IsSimple : IsSimple (codes "xyz")
unfolding occurs
xyz-IsSimple =
    simple_cons b'x' (codes "yz") refl
      (simple_cons b'y' (codes "z") refl (simple_cons b'z' [] refl simple_nil))

tr-tr_example :
    tr
      (codes "xyz")
      (codes "abc")
      (feed (tr (codes "abc") (codes "xyz") (feed (codes "cab!")) (open_output [])).1.written)
      (open_output [])
    ≡ (exit_success, open_output (codes "cab!"))
unfolding no_clash occurs
tr-tr_example = tr-tr (codes "abc") (codes "xyz") (codes "cab!") refl xyz-IsSimple refl
