-- ===== src/Xargs.antt =====
-- programs/xargs.c: runs a command once for each line of its input.
mod Samples
pub mod Input
pub mod Search
pub mod Lines
pub mod Runs
use punchcardos.Prelude.{
  ℕ, zero, suc, ◌+◌, Bool, true, false, ◌&&◌, List, [], ◌∷◌, ◌++◌, Bytes, Option, none, some,
  length, ltb, leb, ◌==◌, if◌then◌else◌, until_nul, codes,
}
use punchcardos.Xargs.Input.{
  bufsiz, LoopEnd, readline_loop, Reading, after_loop, map_outcome, readline,
}
use punchcardos.Sys.Memory.{Heap, allocate}
use punchcardos.Sys.{Outcome, returns, exits, undefined, exit_success, exit_failure}

-- How a process ends: with a status, or by a signal.
pub data Ending : Type 0 where
  exited : ℕ → Ending
  signalled : Ending

-- What execve does: it fails with ENOENT or with another error, or the program runs, stops so many times
-- and ends.
pub data Exec : Type 0 where
  missing : Exec
  refused : Exec
  ran : ℕ → Ending → Exec

-- What the program meets, for each launch by its number: whether fork succeeds, which files can be executed, and what
-- execve does with a path and an argument vector.
pub record World : Type 0 where
  pub forks : ℕ → Bool
  pub access : ℕ → Bytes → Bool
  pub execve : ℕ → Bytes → List Bytes → Exec

-- The size of `fullpath`: PATH_MAX + 2
abbrev pub fullpath_size : ℕ
fullpath_size = 4_098

-- strcpy(fullpath, "./") and strcat(fullpath, cmd)
unfoldable pub beside : Bytes → Outcome Bytes
beside cmd = if leb (length cmd + 3) fullpath_size then returns (codes "./" ++ cmd) else undefined

-- The loop over the rest of path_env, with the part from `start` to `i`.
unfoldable pub resolve_loop : (Bytes → Bool) → Bytes → Bytes → Bytes → Outcome Bytes
unfolding beside
resolve_loop access cmd dir [] = beside cmd
resolve_loop access cmd dir (c ∷ path) = elim (c == b':') [
  | false ↦ resolve_loop access cmd (dir ++ c ∷ []) path
  | true ↦ elim (leb (length dir + length cmd + 2) fullpath_size) [
    | false ↦ undefined
    | true ↦ elim (access (dir ++ b'/' ∷ cmd)) [
      | true ↦ returns (dir ++ b'/' ∷ cmd)
      | false ↦ resolve_loop access cmd [] path
    ]
  ]
]

-- The path that strdup copies. A null pointer for path_env goes to strlen.
unfoldable pub resolve_executable_path : (Bytes → Bool) → Bytes → Option Bytes → Outcome Bytes
unfolding resolve_loop
resolve_executable_path access cmd none = undefined
resolve_executable_path access cmd (some path) = resolve_loop access cmd [] path

-- The new vector up to its null pointer.
unfoldable pub append_arg : List Bytes → Bytes → Heap → Option (List Bytes) × Heap
append_arg argv addendum h =
    ((if (allocate h).0 then some (argv ++ addendum ∷ []) else none), (allocate h).1)

-- do … while (!WIFEXITED(status) && !WIFSIGNALED(status)), where the child stops so many times before
-- it ends.
abbrev pub wait_end : ℕ → Ending → Ending
wait_end zero e = e
wait_end (suc stops) e = wait_end stops e

-- A child for which execve has failed returns from launch, from xargs and from main.
abbrev pub ended : Exec → Ending
ended missing = exited 127
ended refused = exited 126
ended (ran stops e) = wait_end stops e

-- strdup in the child fails when the next allocation does. The parent does not see it.
exec_resolved : (Bytes → Exec) → Heap → Bytes → Ending
exec_resolved execve h fullpath = if (allocate h).0 then ended (execve fullpath) else exited 127

child : World → ℕ → Heap → Option Bytes → List Bytes → Outcome Ending
unfolding resolve_executable_path exec_resolved
child w n h path [] = undefined
child w n h path (cmd ∷ args) =
    map_outcome (exec_resolved (λ fullpath. w.execve n fullpath (cmd ∷ args)) h)
      (resolve_executable_path (w.access n) cmd path)

-- What launch makes of the way in which the child has ended.
unfoldable pub exit_code : Ending → ℕ
exit_code (exited status) =
    if ltb 0 status && leb status 125 then 123 else if status == 255 then 124 else exit_success
exit_code signalled = 125

-- The vector is `none` when append_arg has returned a null pointer, whose first entry the child reads.
unfoldable pub launch : World → ℕ → Heap → Option Bytes → Option (List Bytes) → Outcome ℕ
unfolding child exit_code
launch w n h path argv = elim (w.forks n) [
  | false ↦ returns exit_failure
  | true ↦ elim argv [ none ↦ undefined | some v ↦ map_outcome exit_code (child w n h path v) ]
]

-- How a run ends, with the argument vectors that have been launched, in order.
abbrev pub Run : Type 0
Run = Outcome ℕ × List (List Bytes)

-- The state of the loop: the input, linebuf, the memory and what has been launched.
pub record State : Type 0 where
  pub input : Bytes
  pub linebuf : Bytes
  pub heap : Heap
  pub launched : List (List Bytes)

abbrev vector : Option (List Bytes) → List Bytes
vector none = []
vector (some v) = v

unfoldable pub after_launch : State → (State → Run) → Outcome ℕ → Run
after_launch st again (returns code) = elim (code == exit_success) [
  | true ↦ again st
  | false ↦ (returns code, st.launched)
]
after_launch st again (exits n) = (exits n, st.launched)
after_launch st again undefined = (undefined, st.launched)
after_launch st again Outcome.out_of_fuel = (Outcome.out_of_fuel, st.launched)

-- append_arg and launch for an item. A string ends at its first NUL.
unfoldable pub run_item : World → Option Bytes → List Bytes → Bytes → State → (State → Run) → Run
unfolding append_arg launch after_launch
run_item w path argv item st again =
    let new_argv = append_arg argv item st.heap in
    after_launch (record st { heap = new_argv.1; launched = st.launched ++ vector new_argv.0 ∷ [] })
      again (launch w (length st.launched) new_argv.1 path new_argv.0)

-- if (strlen(item) == 0) continue;
unfoldable pub on_item : World → Option Bytes → List Bytes → Bytes → State → (State → Run) → Run
unfolding run_item
on_item w path argv [] st again = again st
on_item w path argv (c ∷ item) st again = run_item w path argv (c ∷ item) st again

after_readline :
    World → Option Bytes → List Bytes → List (List Bytes) → (State → Run) → Outcome Reading → Run
unfolding on_item
after_readline w path argv launched again (returns r) =
    let st : State = record {
      input = r.input;
      linebuf = r.linebuf;
      heap = r.heap;
      launched = launched;
    } in
    elim r.line [
      | none ↦ (returns exit_success, launched)
      | some line ↦ on_item w path argv (until_nul line) st again
    ]
after_readline w path argv launched again (exits n) = (exits n, launched)
after_readline w path argv launched again undefined = (undefined, launched)
after_readline w path argv launched again Outcome.out_of_fuel = (Outcome.out_of_fuel, launched)

-- while ((item = readline()) != NULL), with a bound on its rounds.
unfoldable pub xargs_loop : ℕ → World → Option Bytes → List Bytes → State → Run
unfolding after_readline readline
xargs_loop zero w path argv st = (Outcome.out_of_fuel, st.launched)
xargs_loop (suc f) w path argv st =
    after_readline w path argv st.launched (λ st'. xargs_loop f w path argv st')
      (readline st.input st.linebuf st.heap)

abbrev path_or_empty : Option Bytes → Bytes
path_or_empty none = []
path_or_empty (some path) = path

-- The memory of the copy of PATH is the first that is taken. Each round but the last reads a newline.
unfoldable pub xargs : World → Option Bytes → List Bytes → Bytes → Heap → Run
unfolding xargs_loop
xargs w path_env argv input h =
    xargs_loop (suc (length input)) w
      (if (allocate h).0 then some (path_or_empty path_env) else none) argv
      (record { input = input; linebuf = []; heap = (allocate h).1; launched = [] })

-- The command and its arguments: behind the empty arguments and those that start with a dash.
unfoldable pub command : List Bytes → List Bytes
command [] = []
command ([] ∷ args) = command args
command ((c ∷ arg) ∷ args) = elim (c == b'-') [ true ↦ command args | false ↦ (c ∷ arg) ∷ args ]

-- main, with the arguments behind the name of the program.
unfoldable pub main : World → Option Bytes → List Bytes → Bytes → Heap → Run
unfolding xargs command
main w path_env [] input h = (returns exit_failure, [])
main w path_env (arg ∷ args) input h = xargs w path_env (command (arg ∷ args)) input h
