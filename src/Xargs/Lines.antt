-- ===== src/Xargs/Lines.antt =====
-- The lines that programs/xargs.c launches its command for.
use punchcardos.Prelude.{
  ℕ, suc, ◌+◌, ◌≤◌, ◌≡◌, ◌≢◌, refl, ◌∙◌, List, [], ◌∷◌, ◌++◌, Bytes, Option, some, length,
  append_assoc, append-nil, length-append, ==_ne, until_nul, arith,
}
use punchcardos.Sys.{returns, exit_success}
use punchcardos.Xargs.Input.{bufsiz, readline_loop, after_loop, readline}
use punchcardos.Xargs.{
  World, append_arg, launch, Run, State, after_launch, run_item, on_item, after_readline,
  xargs_loop,
}

-- A byte that readline puts into linebuf.
abbrev pub IsKept : ℕ → Type 0
IsKept c = (c ≢ b'\r') × ((c ≢ b'\n') × (c ≢ 255))

abbrev pub AllKept : Bytes → Type 0
AllKept [] = Unit {0}
AllKept (c ∷ s) = IsKept c × AllKept s

-- A line that readline gives as it is.
abbrev pub IsLine : Bytes → Type 0
IsLine s = AllKept s × (length s ≤ bufsiz)

abbrev pub AllLines : List Bytes → Type 0
AllLines [] = Unit {0}
AllLines (l ∷ lines) = IsLine l × AllLines lines

abbrev pub with_newlines : List Bytes → Bytes
with_newlines [] = []
with_newlines (l ∷ lines) = l ++ b'\n' ∷ with_newlines lines

-- The argument vectors for items.
abbrev pub vector_for : List Bytes → Bytes → List (List Bytes)
vector_for argv [] = []
vector_for argv (c ∷ item) = (argv ++ (c ∷ item) ∷ []) ∷ []

abbrev pub vectors : List Bytes → List Bytes → List (List Bytes)
vectors argv [] = []
vectors argv (l ∷ lines) = vector_for argv (until_nul l) ++ vectors argv lines

readline_loop-step :
    (c : ℕ) (input buf : Bytes)
    → IsKept c
    → suc (length buf) ≤ bufsiz
    → readline_loop (c ∷ input) buf ≡ readline_loop input (buf ++ c ∷ [])
unfolding readline_loop
readline_loop-step c input buf h room =
    rw (==_ne c b'\r' h.0, readline_loop)
      (rw (==_ne c b'\n' h.1.0)
        (rw (==_ne c 255 h.1.1) (rw (==_ne (length buf) bufsiz (ground arith)) refl)))

readline_loop-text :
    (s rest buf : Bytes)
    → AllKept s
    → length buf + length s ≤ bufsiz
    → readline_loop (s ++ rest) buf ≡ readline_loop rest (buf ++ s)
readline_loop-text [] rest buf h room = rw (append-nil buf) refl
readline_loop-text (c ∷ s) rest buf h room =
    let size = length-append buf (c ∷ []) in
    readline_loop-step c (s ++ rest) buf h.0 (omega arith)
    ∙ rw (append_assoc buf (c ∷ []) s) at
        (readline_loop-text s rest (buf ++ c ∷ []) h.1 (omega (arith, size)))

abbrev pub state_of : Bytes → List (List Bytes) → State
state_of input launched = record { input = input; linebuf = []; heap = []; launched = launched }

module _ (w : World) (path : Option Bytes) (argv : List Bytes) where
  -- The launch for an item is a success whenever it comes.
  abbrev pub Succeeds : Bytes → Type 0
  Succeeds [] = Unit {0}
  Succeeds (c ∷ item) =
      (n : ℕ) → launch w n [] path (some (argv ++ (c ∷ item) ∷ [])) ≡ returns exit_success

  abbrev pub AllSucceed : List Bytes → Type 0
  AllSucceed [] = Unit {0}
  AllSucceed (l ∷ lines) = Succeeds (until_nul l) × AllSucceed lines

  pub xargs_loop-line :
      (f : ℕ) (l rest : Bytes) (launched : List (List Bytes))
      → IsLine l
      → xargs_loop (suc f) w path argv (state_of (l ++ b'\n' ∷ rest) launched)
        ≡ on_item w path argv
            (until_nul l)
            (state_of rest launched)
            (λ st. xargs_loop f w path argv st)
  unfolding xargs_loop readline after_readline after_loop readline_loop
  xargs_loop-line f l rest launched h =
      rw (readline_loop-text l (b'\n' ∷ rest) [] h.0 (omega (arith, h.1)), xargs_loop) refl

  pub xargs_loop-end :
      (f : ℕ) (last : Bytes) (launched : List (List Bytes))
      → IsLine last
      → xargs_loop (suc f) w path argv (state_of last launched) ≡ (returns exit_success, launched)
  unfolding xargs_loop readline after_readline after_loop readline_loop
  xargs_loop-end f last launched h =
      let end = rw (append-nil last) at (readline_loop-text last [] [] h.0 (omega (arith, h.1))) in
      rw (end, xargs_loop) refl

  pub on_item-Succeeds :
      (item rest : Bytes) (launched : List (List Bytes)) (again : State → Run)
      → Succeeds item
      → on_item w path argv item (state_of rest launched) again
        ≡ again (state_of rest (launched ++ vector_for argv item))
  unfolding on_item run_item append_arg after_launch
  on_item-Succeeds [] rest launched again h = rw (append-nil launched) refl
  on_item-Succeeds (c ∷ item) rest launched again h = rw (h (length launched), on_item) refl

  pub xargs_loop-lines :
      (f : ℕ) (lines : List Bytes) (rest : Bytes) (launched : List (List Bytes))
      → AllLines lines
      → AllSucceed lines
      → xargs_loop (length lines + f) w path argv (state_of (with_newlines lines ++ rest) launched)
        ≡ xargs_loop f w path argv (state_of rest (launched ++ vectors argv lines))
  xargs_loop-lines f [] rest launched h ok =
      let e : 0 + f ≡ f = omega arith in rw (e, append-nil launched) refl
  xargs_loop-lines f (l ∷ lines) rest launched h ok =
      let e : suc (length lines) + f ≡ suc (length lines + f) = omega arith in
      let input = with_newlines lines ++ rest in
      rw (e, append_assoc l (b'\n' ∷ with_newlines lines) rest)
        (xargs_loop-line (length lines + f) l input launched h.0
          ∙ (on_item-Succeeds (until_nul l) input launched _ ok.0
              ∙ rw (append_assoc launched (vector_for argv (until_nul l)) (vectors argv lines)) at (
                  xargs_loop-lines f lines rest (launched ++ vector_for argv (until_nul l)) h.1
                    ok.1)))
