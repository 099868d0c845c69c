-- ===== src/Xargs/Samples.antt =====
-- Runs of programs/xargs.c on two lines and a part of a third.
use punchcardos.Prelude.{
  ◌≡◌, refl, true, List, [], ◌∷◌, ◌++◌, Bytes, some, codes, str_eq, until_nul, arith,
}
use punchcardos.Sys.{returns, exit_success}
use punchcardos.Xargs.Lines.{IsLine, AllLines}
use punchcardos.Xargs.Runs.{xargs-launches, xargs-missing}
use punchcardos.Xargs.Search.{NoColon, Directories, with_colons, resolve_executable_path-first}
use punchcardos.Xargs.{
  World, Exec, missing, ran, exited, signalled, exit_code, launch, resolve_executable_path, command,
  main, xargs,
}

-- The only program is /bin/rm, and it ends as it is told.
abbrev world_with : Exec → World
world_with end = record {
  forks = λ n. true;
  access = λ n file. str_eq file (codes "/bin/rm");
  execve = λ n file argv. end;
}

abbrev dirs : List Bytes
dirs = codes "/sbin" ∷ codes "/bin" ∷ []

abbrev path : Bytes
path = with_colons dirs ++ codes "/opt"

abbrev argv : List Bytes
argv = codes "rm" ∷ codes "-f" ∷ []

abbrev lines : List Bytes
lines = codes "a" ∷ [] ∷ codes "b c" ∷ []

a-IsLine : IsLine (codes "a")
a-IsLine = (((omega arith, (omega arith, omega arith)), tt), omega arith)

b_c-IsLine : IsLine (codes "b c")
b_c-IsLine = (
  (
    (omega arith, (omega arith, omega arith)),
    ((omega arith, (omega arith, omega arith)), ((omega arith, (omega arith, omega arith)), tt)),
  ),
  omega arith,
)

d-IsLine : IsLine (codes "d")
d-IsLine = (((omega arith, (omega arith, omega arith)), tt), omega arith)

lines-AllLines : AllLines lines
lines-AllLines = (a-IsLine, ((tt, omega arith), (b_c-IsLine, tt)))

dirs-Directories : Directories (codes "rm") dirs
dirs-Directories = (
  ((omega arith, (omega arith, (omega arith, (omega arith, (omega arith, tt))))), omega arith),
  (((omega arith, (omega arith, (omega arith, (omega arith, tt)))), omega arith), tt),
)

last-NoColon : NoColon (codes "/opt")
last-NoColon = (omega arith, (omega arith, (omega arith, (omega arith, tt))))

-- Arguments that start with a dash come before the command.
command_run : command (codes "-0" ∷ [] ∷ codes "rm" ∷ codes "-f" ∷ []) ≡ argv
unfolding command
command_run = refl

not_found_run : exit_code (exited 127) ≡ exit_success
unfolding exit_code
not_found_run = refl

main_run :
    main (world_with (ran 0 signalled)) (some path) argv (codes "a\nb\n") []
    ≡ (returns 125, (argv ++ codes "a" ∷ []) ∷ [])
unfolding main until_nul str_eq
main_run = refl

resolve_executable_path-first_example :
    resolve_executable_path (λ file. str_eq file (codes "/bin/rm")) (codes "rm") (some path)
    ≡ returns (codes "/bin/rm")
unfolding str_eq
resolve_executable_path-first_example =
    resolve_executable_path-first (λ file. str_eq file (codes "/bin/rm")) (codes "rm") dirs
      (codes "/opt") dirs-Directories last-NoColon (omega arith)

xargs-launches_example :
    xargs (world_with (ran 1 (exited 0))) (some path) argv (codes "a\n\nb c\nd") []
    ≡ (returns exit_success, (argv ++ codes "a" ∷ []) ∷ (argv ++ codes "b c" ∷ []) ∷ [])
unfolding launch until_nul str_eq
xargs-launches_example =
    xargs-launches (world_with (ran 1 (exited 0))) path argv lines (codes "d") lines-AllLines
      d-IsLine (λ n. refl, (tt, (λ n. refl, tt)))

xargs-missing_example :
    xargs (world_with missing) (some path) argv (codes "a\n\nb c\nd") []
    ≡ (returns exit_success, (argv ++ codes "a" ∷ []) ∷ (argv ++ codes "b c" ∷ []) ∷ [])
unfolding until_nul
xargs-missing_example =
    xargs-missing (world_with missing) (codes "rm") (codes "-f" ∷ []) dirs (codes "/opt")
      (λ n. refl) (λ n file v. refl) dirs-Directories last-NoColon (omega arith) lines (codes "d")
      lines-AllLines d-IsLine
