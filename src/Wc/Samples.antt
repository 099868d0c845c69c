-- ===== src/Wc/Samples.antt =====
-- Runs of programs/wc.c on concrete files.
use punchcardos.Prelude.{
  ℕ, ◌≡◌, refl, true, some, none, if◌then◌else◌, List, [], ◌∷◌, str_eq, length, codes, arith,
}
use punchcardos.Sys.{ReadEvent, got, open_output}
use punchcardos.Wc.Counts.{Pieces, no_piece, piece}
use punchcardos.Wc.Utf8.{text_of, are_code_points, wc_loop-chars}
use punchcardos.Wc.Whole.{IsCount, wc-IsCount}
use punchcardos.Wc.{lines, chars, Files, count_line, wc_loop, wc}

abbrev reads : List ReadEvent
reads = got (codes "a\nb") ∷ got (codes "\n") ∷ []

reads-Pieces : Pieces (codes "a\nb\n") reads
reads-Pieces = piece b'a' (codes "\nb") (codes "\n") _ (piece b'\n' [] [] _ no_piece)

abbrev files : Files
files = record {
  stdin = [];
  open_file = λ name. if str_eq name (codes "f") then some reads else none;
}

wc-IsCount_example :
    (n : ℕ) × (wc lines (codes "f") true files (open_output [])
      ≡ (some n, open_output (count_line n (codes "f"))))
    × IsCount lines (codes "a\nb\n") n
unfolding str_eq
wc-IsCount_example =
    wc-IsCount lines (codes "f") (codes "a\nb\n") files reads [] refl refl reads-Pieces
      (omega arith, (omega arith, (omega arith, (omega arith, tt))))

abbrev euro : List ℕ
euro = 0x20AC ∷ []

-- U+20AC, with its three bytes in two reads.
euro-Pieces : Pieces (text_of euro) (got (0xE2 ∷ 0x82 ∷ []) ∷ got (0xAC ∷ []) ∷ [])
unfolding text_of
euro-Pieces = piece 0xE2 (0x82 ∷ []) (0xAC ∷ []) _ (piece 0xAC [] [] _ no_piece)

wc_loop-chars_example :
    wc_loop chars (got (0xE2 ∷ 0x82 ∷ []) ∷ got (0xAC ∷ []) ∷ []) 0 ≡ some (length euro)
unfolding are_code_points
wc_loop-chars_example =
    wc_loop-chars euro (got (0xE2 ∷ 0x82 ∷ []) ∷ got (0xAC ∷ []) ∷ []) refl euro-Pieces
