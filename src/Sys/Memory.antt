-- ===== src/Sys/Memory.antt =====
-- malloc and realloc as a script that tells which calls fail.
use punchcardos.Prelude.{Bool, true, false, List, [], ◌∷◌}

-- How the coming calls of malloc and realloc go: `true` where one fails. Later ones succeed.
abbrev pub Heap : Type 0
Heap = List Bool

abbrev pub allocate : Heap → Bool × Heap
allocate [] = (true, [])
allocate (true ∷ h) = (false, h)
allocate (false ∷ h) = (true, h)
