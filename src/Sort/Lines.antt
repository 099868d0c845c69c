-- ===== src/Sort/Lines.antt =====
-- The growing array of lines in programs/sort.c and programs/uniq.c: lines_init, lines_resize and
-- lines_append. `room` is the number of slots that the last allocation gave; the programs have no
-- such variable. A slot is a line, or `none` where the pointer stored is not that of a line of its own.
pub mod Growth
use punchcardos.Prelude.{
  ℕ, suc, ◌+◌, ◌*◌, Bool, true, false, List, [], ◌∷◌, ◌++◌, Bytes, Option, none, some, ltb, leb,
  if◌then◌else◌,
}
pub use punchcardos.Sys.Memory.{Heap, allocate}
use punchcardos.Sys.{Outcome, returns, exits, undefined}

pub record Lines : Type 0 where
  pub array : List (Option Bytes)
  pub len : ℕ
  pub cap : ℕ
  pub room : ℕ

-- EXIT_FAILURE when there is no memory.
abbrev pub lines_init : Heap → Option Lines × Heap
lines_init h = (
  (if (allocate h).0 then some (record { array = []; len = 0; cap = 64; room = 64 }) else none),
  (allocate h).1,
)

-- The source computes the new capacity and does not store it.
unfoldable pub lines_resize : Lines → Heap → Outcome (Lines × Heap)
lines_resize l h =
    if (allocate h).0 then returns (record l { room = l.cap * 2 }, (allocate h).1) else exits 1

-- lines.array[lines.len] = line. The source has no test: a store past the slots is undefined in C.
abbrev store_line : Option Bytes → Lines → Heap → Outcome (Lines × Heap)
store_line line l h =
    if ltb l.len l.room
    then returns (record l { array = l.array ++ line ∷ []; len = l.len + 1 }, h)
    else undefined

after_resize : Option Bytes → Outcome (Lines × Heap) → Outcome (Lines × Heap)
after_resize line (returns r) = store_line line r.0 r.1
after_resize line (exits n) = exits n
after_resize line undefined = undefined
after_resize line Outcome.out_of_fuel = Outcome.out_of_fuel

unfoldable pub lines_append : Option Bytes → Lines → Heap → Outcome (Lines × Heap)
unfolding after_resize lines_resize
lines_append line l h =
    if leb l.cap l.len then after_resize line (lines_resize l h) else store_line line l h
