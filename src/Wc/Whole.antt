-- ===== src/Wc/Whole.antt =====
-- programs/wc.c: what `wc` prints for a file, by an account of the text that is not the test of the program.
use punchcardos.Prelude.{
  ℕ, ◌+◌, ◌/◌, ◌<◌, ◌≡◌, refl, true, false, some, Bytes, List, [], ◌∷◌, ◌++◌, ◌==◌, if◌then◌else◌,
  length, str_eq, codes, Bool-cases, inl, inr, arith,
}
use punchcardos.Sys.{ReadEvent, open_output}
use punchcardos.Wc.Counts.{Pieces, total, wc_loop-total, report-shown}
use punchcardos.Wc.Utf8.{counts-chars}
use punchcardos.Wc.{CountType, words, bytes, lines, chars, counts, Files, count_line, wc}

abbrev pub AreBytes : Bytes → Type 0
AreBytes [] = Unit {0}
AreBytes (b ∷ text) = (b < 256) × AreBytes text

-- How often a byte occurs.
abbrev pub occurrences : ℕ → Bytes → ℕ
occurrences c [] = 0
occurrences c (b ∷ text) = (if b == c then 1 else 0) + occurrences c text

-- The bytes of the form 10xxxxxx.
abbrev pub continuations : Bytes → ℕ
continuations [] = 0
continuations (b ∷ text) = (if b / 64 == 2 then 1 else 0) + continuations text

-- Whether `n` is the number that a text has for a type.
abbrev pub IsCount : CountType → Bytes → ℕ → Type 0
IsCount bytes text n = n ≡ length text
IsCount lines text n = n ≡ occurrences b'\n' text
IsCount words text n =
    n
    ≡ occurrences b' ' text
      + occurrences 9 text
      + occurrences 11 text
      + occurrences 12 text
      + occurrences b'\r' text
IsCount chars text n = n + continuations text ≡ length text

total-IsCount :
    (type : CountType) (text : Bytes) → AreBytes text → IsCount type text (total type text)
unfolding total counts
total-IsCount bytes [] h = refl
total-IsCount lines [] h = refl
total-IsCount words [] h = refl
total-IsCount chars [] h = refl
total-IsCount bytes (b ∷ text) h = omega (arith, total-IsCount bytes text h.1)
total-IsCount lines (b ∷ text) h = ground (arith, total-IsCount lines text h.1)
total-IsCount words (b ∷ text) h = ground (arith, total-IsCount words text h.1)
total-IsCount chars (b ∷ text) h =
    let rest = total-IsCount chars text h.1 in
    let test = counts-chars b h.0 in
    elim (Bool-cases (b / 64 == 2)) [
      | inl e ↦ rw (test, e) (omega (arith, rest))
      | inr e ↦ rw (test, e) (omega (arith, rest))
    ]

-- For a file of bytes that can be opened and read in any pieces, by a name that is not "-", and an output
-- that takes everything: `wc` returns a number `n` and prints it, a blank, the name and a newline.
-- With -c, `n` is the size of the file, with -l the number of its newlines, with -m the number of its
-- bytes that do not continue a character of UTF-8, and with -w, whatever the usage text says of words,
-- the number of its blanks other than newlines.
pub wc-IsCount :
    (type : CountType) (name text : Bytes) (fs : Files) (es : List ReadEvent) (w : Bytes)
    → str_eq name (codes "-") ≡ false
    → fs.open_file name ≡ some es
    → Pieces text es
    → AreBytes text
    → (n : ℕ) × (wc type name true fs (open_output w)
        ≡ (some n, open_output (w ++ count_line n name)))
      × IsCount type text n
unfolding wc
wc-IsCount type name text fs es w h o p are = (
  total type text,
  rw (h, o, wc_loop-total type text es p) (report-shown (total type text) name w),
  total-IsCount type text are,
)
