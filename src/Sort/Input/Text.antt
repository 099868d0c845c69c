-- ===== src/Sort/Input/Text.antt =====
-- What readline and read_lines of programs/sort.c and programs/uniq.c make of a text.
use punchcardos.Cmp.Compare.{bytes_of}
use punchcardos.Prelude.{
  ℕ, zero, suc, ◌+◌, ◌≤◌, ◌<◌, ◌≡◌, ◌≢◌, refl, ap, false, List, [], ◌∷◌, ◌++◌, Bytes, Option, some,
  ◌==◌, length, length-append, append_assoc, append-nil, arith, ==_ne, until_nul, Bool-cases, inl,
  inr, ltb, ltb→lt,
}
use punchcardos.Sort.Input.{
  bufsiz, ended, readline_loop, text, after_loop, readline, State, read_lines, round, appended,
}
use punchcardos.Sort.Lines.Growth.{filled, lines_append-filled, lines_append-overflow}
use punchcardos.Sort.Lines.{lines_append}
use punchcardos.Sys.{ByteEvent, byte, returns, undefined}

-- Bytes that mean themselves in a line.
pub data IsPlain : Bytes → Type 0 where
  nil : IsPlain []
  cons : {c : ℕ} {s : Bytes} → c ≢ 0 → c ≢ b'\r' → c ≢ b'\n' → IsPlain s → IsPlain (c ∷ s)

pub record IsLine (s : Bytes) : Type 0 where
  pub plain : IsPlain s
  pub first : ℕ
  pub others : Bytes
  pub shape : s ≡ first ∷ others
  pub fits : length s ≤ bufsiz

pub data AreLines : List Bytes → Type 0 where
  nil : AreLines []
  cons : {x : Bytes} {xs : List Bytes} → IsLine x → AreLines xs → AreLines (x ∷ xs)

-- The reads of a file with these lines, each ended by a newline, and of what follows them.
unfoldable pub typed : List Bytes → List ByteEvent → List ByteEvent
typed [] es = es
typed (x ∷ xs) es = bytes_of x ++ byte b'\n' ∷ typed xs es

pub readline_loop-line :
    (s buf : Bytes) (es : List ByteEvent)
    → IsPlain s
    → length buf + length s ≤ bufsiz
    → readline_loop (bytes_of s ++ byte b'\n' ∷ es) buf ≡ (ended, es, buf ++ s)
unfolding readline_loop bytes_of
readline_loop-line [] buf es IsPlain.nil h = rw (append-nil buf) refl
readline_loop-line (c ∷ s) buf es (IsPlain.cons n0 nr nn p) h =
    let room : (length buf == bufsiz) ≡ false = ground arith in
    let grown : length (buf ++ c ∷ []) + length s ≤ bufsiz =
      omega (arith, length-append buf (c ∷ [])) in
    let whole = append_assoc buf (c ∷ []) s in
    rw (==_ne c b'\r' nr, ==_ne c b'\n' nn, room)
      (rw whole at (readline_loop-line s (buf ++ c ∷ []) es p grown))

until_nul-plain : (s : Bytes) → IsPlain s → until_nul s ≡ s
unfolding until_nul
until_nul-plain [] IsPlain.nil = refl
until_nul-plain (c ∷ s) (IsPlain.cons n0 nr nn p) =
    rw (==_ne c 0 n0) (ap (◌∷◌ c) (until_nul-plain s p))

abbrev pub slots : List Bytes → List (Option Bytes)
slots [] = []
slots (x ∷ xs) = some x ∷ slots xs

-- The variables of the program when these slots are filled.
abbrev pub holding : List (Option Bytes) → State
holding a = record { linebuf = []; lines = filled a; heap = [] }

-- Where the reading stops, and what it leaves: at the end of the file, or behind a blank line.
pub data Stops : List ByteEvent → List ByteEvent → Type 0 where
  at_end : Stops [] []
  at_blank : {rest : List ByteEvent} → Stops (byte b'\n' ∷ rest) rest

readline-typed :
    (x : Bytes) (es : List ByteEvent)
    → IsLine x
    → readline (bytes_of x ++ byte b'\n' ∷ es) [] []
      ≡ record { reply = text x; events = es; linebuf = []; heap = [] }
unfolding readline after_loop
readline-typed x es l = rw (readline_loop-line x [] es l.plain (omega (arith, l.fits))) refl

round-appends :
    (f : ℕ) (x : Bytes) (a : List (Option Bytes)) (es : List ByteEvent)
    → IsLine x
    → read_lines (suc f) (bytes_of x ++ byte b'\n' ∷ es) (holding a)
      ≡ appended es [] (λ es' st'. read_lines f es' st') (lines_append (some x) (filled a) [])
unfolding read_lines round
round-appends f x a es l =
    let string : until_nul (l.first ∷ l.others) ≡ l.first ∷ l.others =
      rw l.shape at (until_nul-plain x l.plain) in
    rw (readline-typed x es l, l.shape) (rw string refl)

read_lines-round :
    (f : ℕ) (x : Bytes) (a : List (Option Bytes)) (es : List ByteEvent)
    → IsLine x
    → length a < 128
    → read_lines (suc f) (bytes_of x ++ byte b'\n' ∷ es) (holding a)
      ≡ read_lines f es (holding (a ++ some x ∷ []))
unfolding appended
read_lines-round f x a es l h = rw (round-appends f x a es l, lines_append-filled (some x) a h) refl

read_lines-stops :
    (f : ℕ) (a : List (Option Bytes)) (es rest : List ByteEvent)
    → Stops es rest
    → read_lines (suc f) es (holding a) ≡ returns (rest, holding a)
unfolding read_lines round readline readline_loop after_loop
read_lines-stops f a [] [] Stops.at_end = refl
read_lines-stops f a _ rest Stops.at_blank = refl

-- Lines that fit into the array are appended to it, up to the end of the file or a blank line.
pub read_lines-typed :
    (f : ℕ) (xs : List Bytes) (a : List (Option Bytes)) (es rest : List ByteEvent)
    → AreLines xs
    → Stops es rest
    → length a + length xs ≤ 128
    → length xs < f
    → read_lines f (typed xs es) (holding a) ≡ returns (rest, holding (a ++ slots xs))
unfolding typed
read_lines-typed zero xs a es rest ls stop h k = absurd (omega arith)
read_lines-typed (suc f) [] a es rest AreLines.nil stop h k =
    rw (append-nil a) (read_lines-stops f a es rest stop)
read_lines-typed (suc f) (x ∷ xs) a es rest (AreLines.cons l ls) stop h k =
    let grown : length (a ++ some x ∷ []) + length xs ≤ 128 =
      omega (arith, length-append a (some x ∷ [])) in
    let more = read_lines-typed f xs (a ++ some x ∷ []) es rest ls stop grown (omega arith) in
    rw (read_lines-round f x a (typed xs es) l (omega arith))
      (rw (append_assoc a (some x ∷ []) (slots xs)) at more)

pub read_lines-overflow :
    (f : ℕ) (xs : List Bytes) (a : List (Option Bytes)) (es : List ByteEvent)
    → AreLines xs
    → length a ≤ 128
    → 128 < length a + length xs
    → length xs < f
    → read_lines f (typed xs es) (holding a) ≡ undefined
unfolding typed appended
read_lines-overflow zero xs a es ls h over k = absurd (omega arith)
read_lines-overflow (suc f) [] a es AreLines.nil h over k = absurd (omega arith)
read_lines-overflow (suc f) (x ∷ xs) a es (AreLines.cons l ls) h over k =
    elim (Bool-cases (ltb (length a) 128)) [
      | inl t ↦
          let size : length (a ++ some x ∷ []) ≡ length a + 1 = length-append a (some x ∷ []) in
          let room = ltb→lt (length a) 128 t in
          rw (read_lines-round f x a (typed xs es) l room) (
            read_lines-overflow f xs (a ++ some x ∷ []) es ls (omega arith) (omega arith)
              (omega arith))
      | inr t ↦
          let all : length a ≡ 128 = ground arith in
          rw (round-appends f x a (typed xs es) l, lines_append-overflow (some x) a all) refl
    ]
