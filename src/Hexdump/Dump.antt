-- ===== src/Hexdump/Dump.antt =====
-- What programs/hexdump.c writes for a whole file.
use punchcardos.Hexdump.{
  hexdump_line, line_size, State, step, bytes_loop, read_loop, last_line, sought, Input, hexdump,
}
use punchcardos.Prelude.{
  ℕ, zero, suc, ◌+◌, ◌-◌, ◌<◌, ◌≡◌, ◌∙◌, refl, ap, true, false, List, [], ◌∷◌, ◌++◌, Bytes, some,
  length, ltb, ◌==◌, take, take_nil, length-append, append_assoc, append-nil, ==_ne, Bool-cases,
  inl, inr, arith,
}
use punchcardos.Sort.Array.{last-split}
use punchcardos.Sys.Reads.{readable, NoFault}
use punchcardos.Sys.{ReadEvent, got, failed, open_output, write, exit_success}

-- The steps for some bytes, without the limit.
abbrev steps : ℕ → Bytes → State → State
steps start [] st = st
steps start (c ∷ bytes) st = steps start bytes (step start c st)

module _ (start numbytes : ℕ) where
  bytes_loop_done :
      (bytes : Bytes) (st : State)
      → ltb st.bytes_written numbytes ≡ false
      → bytes_loop start numbytes bytes st ≡ st
  unfolding bytes_loop
  bytes_loop_done [] st h = refl
  bytes_loop_done (c ∷ bytes) st h = rw (h, bytes_loop) refl

  bytes_loop-append :
      (xs ys : Bytes) (st : State)
      → bytes_loop start numbytes ys (bytes_loop start numbytes xs st)
        ≡ bytes_loop start numbytes (xs ++ ys) st
  unfolding bytes_loop
  bytes_loop-append [] ys st = refl
  bytes_loop-append (c ∷ xs) ys st = elim (Bool-cases (ltb st.bytes_written numbytes)) [
    | inl h ↦ rw (h, bytes_loop) (bytes_loop-append xs ys (step start c st))
    | inr h ↦ rw (h, bytes_loop) (bytes_loop_done ys st h)
  ]

  -- The parts in which a file is read make no difference.
  read_loop-readable :
      (es : List ReadEvent) (st : State)
      → NoFault es
      → read_loop start numbytes es st ≡ (bytes_loop start numbytes (readable es) st, false)
  unfolding read_loop bytes_loop
  read_loop-readable [] st n = refl
  read_loop-readable (failed ∷ es) st n = elim n [ ]
  read_loop-readable (got [] ∷ es) st n = refl
  read_loop-readable (got (c ∷ bytes) ∷ es) st (NoFault.cons n) =
      let rest = read_loop-readable es (bytes_loop start numbytes (c ∷ bytes) st) n in
      rest ∙ ap (λ s. (s, false)) (bytes_loop-append (c ∷ bytes) (readable es) st)

  step-counts : (c : ℕ) (st : State) → (step start c st).bytes_written ≡ st.bytes_written + 1
  unfolding step
  step-counts c st = elim (Bool-cases (length (st.line_buf ++ c ∷ []) == line_size)) [
    | inl h ↦ rw h refl
    | inr h ↦ rw h refl
  ]

  bytes_loop-steps :
      (bytes : Bytes) (st : State) (n : ℕ)
      → n ≡ numbytes - st.bytes_written
      → bytes_loop start numbytes bytes st ≡ steps start (take n bytes) st
  unfolding bytes_loop
  bytes_loop-steps [] st n e = rw (take_nil n) refl
  bytes_loop-steps (c ∷ bytes) st zero e =
      let h : ltb st.bytes_written numbytes ≡ false = ground arith in rw (h, bytes_loop) refl
  bytes_loop-steps (c ∷ bytes) st (suc n) e =
      let h : ltb st.bytes_written numbytes ≡ true = ground arith in
      rw (h, bytes_loop)
        (bytes_loop-steps bytes (step start c st) n (omega (arith, step-counts c st)))

-- In the middle of a line.
abbrev inside : Bytes → ℕ → Bytes → State
inside buf n w = record { line_buf = buf; bytes_written = n; out = open_output w }

-- The rows that are full, each with the offset of its end.
unfoldable pub rows_text : ℕ → List Bytes → Bytes
rows_text offset [] = []
rows_text offset (row ∷ rows) = hexdump_line row (offset + 16) ++ rows_text (offset + 16) rows

abbrev pub joined : List Bytes → Bytes
joined [] = []
joined (row ∷ rows) = row ++ joined rows

pub data AreRows : List Bytes → Type 0 where
  nil : AreRows []
  cons : {row : Bytes} {rows : List Bytes} → length row ≡ 16 → AreRows rows → AreRows (row ∷ rows)

module _ (start : ℕ) where
  step-inside :
      (c n : ℕ) (buf w : Bytes)
      → length buf < 15
      → step start c (inside buf n w) ≡ inside (buf ++ c ∷ []) (n + 1) w
  unfolding step
  step-inside c n buf w h =
      let e : (length (buf ++ c ∷ []) == line_size) ≡ false =
        ==_ne _ _ (ground (arith, length-append buf (c ∷ []))) in
      rw e refl

  step-last :
      (c n : ℕ) (buf w : Bytes)
      → length buf ≡ 15
      → step start c (inside buf n w)
        ≡ inside [] (n + 1) (w ++ hexdump_line (buf ++ c ∷ []) (start + (n + 1)))
  unfolding step write
  step-last c n buf w h =
      let size : length (buf ++ c ∷ []) ≡ 16 = omega (arith, length-append buf (c ∷ [])) in
      let e : (length (buf ++ c ∷ []) == line_size) ≡ true = rw size refl in rw e refl

  steps-inside :
      (xs rest buf w : Bytes) (n : ℕ)
      → length buf + length xs < 16
      → steps start (xs ++ rest) (inside buf n w)
        ≡ steps start rest (inside (buf ++ xs) (n + length xs) w)
  steps-inside [] rest buf w n h = let e : n + 0 ≡ n = omega arith in rw (e, append-nil buf) refl
  steps-inside (c ∷ xs) rest buf w n h =
      let e : n + suc (length xs) ≡ n + 1 + length xs = omega arith in
      let more =
        steps-inside xs rest (buf ++ c ∷ []) w (n + 1)
          (omega (arith, length-append buf (c ∷ []))) in
      let first = ap (steps start (xs ++ rest)) (step-inside c n buf w (omega arith)) in
      rw e (first ∙ rw (append_assoc buf (c ∷ []) xs) at more)

  steps-row :
      (row rest w : Bytes) (n : ℕ)
      → length row ≡ 16
      → steps start (row ++ rest) (inside [] n w)
        ≡ steps start rest (inside [] (n + 16) (w ++ hexdump_line row (start + n + 16)))
  steps-row row rest w n h = split (last-split row 15 h)
    where
      split :
          (b : Bytes) × (x : ℕ) × (row ≡ b ++ x ∷ [])
          → steps start (row ++ rest) (inside [] n w)
            ≡ steps start rest (inside [] (n + 16) (w ++ hexdump_line row (start + n + 16)))
      split (b, x, e) =
          let size : length b ≡ 15 = omega (arith, ap length e, length-append b (x ∷ [])) in
          let before = steps-inside b (x ∷ rest) [] w n (omega arith) in
          let end : n + length b + 1 ≡ n + 16 = omega arith in
          let place : start + (n + 16) ≡ start + n + 16 = omega arith in
          let last = step-last x (n + length b) b w size in
          rw (e, append_assoc b (x ∷ []) rest)
            (before ∙ ap (steps start rest) (rw (end, place) at last))

  steps-rows :
      (rows : List Bytes) (rest w : Bytes) (n : ℕ)
      → AreRows rows
      → length rest < 16
      → steps start (joined rows ++ rest) (inside [] n w)
        ≡ inside rest (n + length (joined rows) + length rest) (w ++ rows_text (start + n) rows)
  unfolding rows_text
  steps-rows [] rest w n AreRows.nil h =
      let e : n + 0 + length rest ≡ n + length rest = omega arith in
      rw (e, append-nil w) (rw (append-nil rest) at (steps-inside rest [] [] w n (omega arith)))
  steps-rows (row ∷ rows) rest w n (AreRows.cons k a) h =
      let one = steps-row row (joined rows ++ rest) w n k in
      let more = steps-rows rows rest (w ++ hexdump_line row (start + n + 16)) (n + 16) a h in
      let place : start + (n + 16) ≡ start + n + 16 = omega arith in
      let size : n + 16 + length (joined rows) + length rest
          ≡ n + length (row ++ joined rows) + length rest =
        omega (arith, length-append row (joined rows)) in
      rw (append_assoc row (joined rows) rest) (
        one
        ∙ rw
            (
              place,
              size,
              append_assoc w (hexdump_line row (start + n + 16)) (rows_text (start + n + 16) rows),
            )
            at more)

-- A file that can be sought and read without an error, in whatever parts, to an output that takes all.
-- The bytes to show, cut into rows of 16 and a last row that is shorter and may be empty: each row is
-- shown on a line with the offset behind it, the last one too.
pub hexdump-rows :
    (infile : Input) (start numbytes : ℕ) (w : Bytes) (es : List ReadEvent) (rows : List Bytes)
    (rest : Bytes)
    → infile start ≡ some es
    → NoFault es
    → take numbytes (readable es) ≡ joined rows ++ rest
    → AreRows rows
    → length rest < 16
    → hexdump infile (open_output w) start numbytes ≡ (
      exit_success,
      open_output (
          w
          ++ (rows_text start rows
              ++ hexdump_line rest (start + (length (joined rows) + length rest)))),
    )
unfolding hexdump sought last_line write
hexdump-rows infile start numbytes w es rows rest opens sound cut a short =
    let begin = inside [] 0 w in
    let all : numbytes ≡ numbytes - 0 = omega arith in
    let origin : start + 0 ≡ start = omega arith in
    let total : 0 + length (joined rows) + length rest ≡ length (joined rows) + length rest =
      omega arith in
    let stepped : steps start (take numbytes (readable es)) begin
        ≡ inside rest (length (joined rows) + length rest) (w ++ rows_text start rows) =
      rw cut (rw (origin, total) at (steps-rows start rows rest w 0 a short)) in
    let run : read_loop start numbytes es begin
        ≡ (inside rest (length (joined rows) + length rest) (w ++ rows_text start rows), false) =
      read_loop-readable start numbytes es begin sound
      ∙ ap (λ s. (s, false))
          (bytes_loop-steps start numbytes (readable es) begin numbytes all ∙ stepped) in
    let line = hexdump_line rest (start + (length (joined rows) + length rest)) in
    rw opens (rw run (rw (append_assoc w (rows_text start rows) line) refl))
