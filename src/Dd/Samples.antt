-- ===== src/Dd/Samples.antt =====
-- A run of programs/dd.c on short writes.
use punchcardos.Dd.Copy.Limit.{copy_loop-limited}
use punchcardos.Dd.Copy.Whole.{CopyEnd, read_content, copy_loop-CopyEnd}
use punchcardos.Dd.Copy.{no_records, copy_loop}
use punchcardos.Prelude.{◌≡◌, some, none, List, [], ◌∷◌, codes}
use punchcardos.Sys.{Output, ReadEvent, got, WriteEvent, accept}

abbrev reads : List ReadEvent
reads = got (codes "abcd") ∷ got (codes "ef") ∷ []

abbrev writes : List WriteEvent
writes = accept 3 ∷ accept 0 ∷ []

copy_loop-CopyEnd_example :
    CopyEnd none []
      (read_content reads)
      (copy_loop 4 none reads no_records (record { written = []; events = writes }))
copy_loop-CopyEnd_example = copy_loop-CopyEnd 4 none reads no_records [] writes

abbrev output : Output
output = record { written = []; events = writes }

copy_loop-limited_example :
    copy_loop 4 (some 1) reads no_records output
    ≡ copy_loop 4 none (got (codes "abcd") ∷ []) no_records output
copy_loop-limited_example = copy_loop-limited 4 1 reads output
