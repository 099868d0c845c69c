-- ===== src/Xargs/Runs.antt =====
-- Whole runs of programs/xargs.c.
use punchcardos.Prelude.{
  ℕ, suc, ◌+◌, ◌-◌, ◌≤◌, ◌≡◌, refl, ap, ◌∙◌, true, List, [], ◌∷◌, ◌++◌, Bytes, some, length,
  length-append, until_nul, arith,
}
use punchcardos.Sys.{returns, exit_success}
use punchcardos.Xargs.Lines.{
  IsLine, AllLines, with_newlines, vectors, state_of, Succeeds, AllSucceed, xargs_loop-end,
  xargs_loop-lines,
}
use punchcardos.Xargs.Search.{
  NoColon, Directories, with_colons, first_executable, resolve_executable_path-first,
}
use punchcardos.Xargs.{
  World, missing, fullpath_size, child, exec_resolved, exit_code, launch, xargs_loop, xargs,
}

length-with_newlines : (lines : List Bytes) → length lines ≤ length (with_newlines lines)
length-with_newlines [] = omega arith
length-with_newlines (l ∷ lines) =
    omega (arith, length-with_newlines lines, length-append l (b'\n' ∷ with_newlines lines))

module _ (w : World) (path : Bytes) (argv : List Bytes) where
  -- Some rounds are left behind the lines in front.
  xargs-rest :
      (lines : List Bytes) (rest : Bytes)
      → AllLines lines
      → AllSucceed w (some path) argv lines
      → (f : ℕ) × (xargs w (some path) argv (with_newlines lines ++ rest) []
          ≡ xargs_loop (suc f) w (some path) argv (state_of rest (vectors argv lines)))
  unfolding xargs
  xargs-rest lines rest h ok =
      let f = length (with_newlines lines ++ rest) - length lines in
      let rounds : suc (length (with_newlines lines ++ rest)) ≡ length lines + suc f =
        omega (arith, length-with_newlines lines, length-append (with_newlines lines) rest) in
      let start = state_of (with_newlines lines ++ rest) [] in
      (
        f,
        ap (λ k. xargs_loop k w (some path) argv start) rounds
            ∙ xargs_loop-lines w (some path) argv (suc f) lines rest [] h ok,
      )

  -- When each line can be read as it is and every launch succeeds: the command is launched for each
  -- line that is not empty, in order, with the line behind its arguments, and xargs succeeds. What
  -- stands behind the last newline is not used.
  pub xargs-launches :
      (lines : List Bytes) (last : Bytes)
      → AllLines lines
      → IsLine last
      → AllSucceed w (some path) argv lines
      → xargs w (some path) argv (with_newlines lines ++ last) []
        ≡ (returns exit_success, vectors argv lines)
  xargs-launches lines last h end ok =
      let run = xargs-rest lines last h ok in
      run.1 ∙ xargs_loop-end w (some path) argv run.0 last (vectors argv lines) end

module _ (w : World) (cmd : Bytes) (args : List Bytes) (dirs : List Bytes) (last : Bytes)
    (forks_all : (n : ℕ) → w.forks n ≡ true)
    (none_found : (n : ℕ) (file : Bytes) (argv : List Bytes) → w.execve n file argv ≡ missing)
    (named : Directories cmd dirs) (end : NoColon last)
    (fits : length cmd + 3 ≤ fullpath_size) where
  abbrev path : Bytes
  path = with_colons dirs ++ last

  launch-missing :
      (n : ℕ) (more : List Bytes)
      → launch w n [] (some path) (some (cmd ∷ more)) ≡ returns exit_success
  unfolding launch child exec_resolved exit_code
  launch-missing n more =
      rw (forks_all n, launch)
        (rw (resolve_executable_path-first (w.access n) cmd dirs last named end fits)
          (rw (none_found n (first_executable (w.access n) cmd dirs) (cmd ∷ more)) refl))

  missing-Succeeds : (item : Bytes) → Succeeds w (some path) (cmd ∷ args) item
  missing-Succeeds [] = tt
  missing-Succeeds (c ∷ item) = λ n. launch-missing n (args ++ (c ∷ item) ∷ [])

  missing-AllSucceed : (lines : List Bytes) → AllSucceed w (some path) (cmd ∷ args) lines
  missing-AllSucceed [] = tt
  missing-AllSucceed (l ∷ lines) = (missing-Succeeds (until_nul l), missing-AllSucceed lines)

  -- When each fork succeeds and execve finds no program at all: xargs goes through all its lines and
  -- succeeds nevertheless, since the status 127 of a child counts as a success.
  pub xargs-missing :
      (lines : List Bytes) (tail : Bytes)
      → AllLines lines
      → IsLine tail
      → xargs w (some path) (cmd ∷ args) (with_newlines lines ++ tail) []
        ≡ (returns exit_success, vectors (cmd ∷ args) lines)
  xargs-missing lines tail h rest =
      xargs-launches w path (cmd ∷ args) lines tail h rest (missing-AllSucceed lines)
