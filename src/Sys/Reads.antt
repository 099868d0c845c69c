-- ===== src/Sys/Reads.antt =====
-- What the programs can read of a file, given how its reads go.
use punchcardos.Prelude.{ℕ, ◌<◌, List, [], ◌∷◌, ◌++◌, Bytes}
use punchcardos.Sys.{ReadEvent, got, failed}

pub data AreBytes : Bytes → Type 0 where
  nil : AreBytes []
  cons : {b : ℕ} {bs : Bytes} → b < 256 → AreBytes bs → AreBytes (b ∷ bs)

-- What can be read up to the end of the file or the first error.
abbrev pub readable : List ReadEvent → Bytes
readable [] = []
readable (failed ∷ es) = []
readable (got [] ∷ es) = []
readable (got (b ∷ bs) ∷ es) = (b ∷ bs) ++ readable es

-- Reads without an error.
pub data NoFault : List ReadEvent → Type 0 where
  nil : NoFault []
  cons : {bs : Bytes} {es : List ReadEvent} → NoFault es → NoFault (got bs ∷ es)
