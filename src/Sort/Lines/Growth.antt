-- ===== src/Sort/Lines/Growth.antt =====
-- How the array of lines in programs/sort.c grows, and where it stops growing.
use punchcardos.Prelude.{
  ◌+◌, ◌*◌, ◌≤◌, ◌<◌, ◌≡◌, ℕ, true, false, refl, List, [], ◌∷◌, ◌++◌, Bytes, Option, none, some,
  ltb, leb, if◌then◌else◌, ap, ltb→lt, length, length-append, arith, Bool-cases, inl, inr,
}
use punchcardos.Sort.Lines.{
  Heap, allocate, Lines, lines_init, lines_resize, lines_append, store_line, after_resize,
}
use punchcardos.Sys.{Outcome, returns, exits, undefined}

-- The arrays that lines_init gives and lines_append makes of them.
pub data Reachable : Lines → Type 0 where
  init : {l : Lines} (h h' : Heap) → lines_init h ≡ (some l, h') → Reachable l
  append :
      {l l' : Lines} (line : Option Bytes) (h h' : Heap)
      → Reachable l
      → lines_append line l h ≡ returns (l', h')
      → Reachable l'

pub record IsWellFormed (l : Lines) : Type 0 where
  pub counted : l.len ≡ length l.array
  pub capacity : l.cap ≡ 64
  pub slots : l.room ≡ (if leb l.len 64 then 64 else 128)
  pub bounded : l.len ≤ 128

-- The array with these slots, as lines_append leaves it.
abbrev pub filled : List (Option Bytes) → Lines
filled a = record {
  array = a;
  len = length a;
  cap = 64;
  room = if leb (length a) 64 then 64 else 128;
}

-- How a call may go: it appends the line as long as there are fewer than 128, it ends the program when there
-- is no memory for more than 64, and it stores past the end of the slots when there are 128.
abbrev pub Appends : Option Bytes → Lines → Heap → Outcome (Lines × Heap) → Type 0
Appends line l h (returns r) =
    ((l.len < 128) × (r.0.array ≡ l.array ++ line ∷ [])) × IsWellFormed r.0
Appends line l h (exits n) = ((n ≡ 1) × (64 ≤ l.len)) × ((allocate h).0 ≡ false)
Appends line l h undefined = (l.len ≡ 128) × ((allocate h).0 ≡ true)
Appends line l h Outcome.out_of_fuel = ⊥

Started : Option Lines → Type 0
Started none = Unit
Started (some l) = IsWellFormed l

lines_init-Started : (h : Heap) → Started (lines_init h).0
unfolding Started
lines_init-Started h = elim (Bool-cases (allocate h).0) [
  | inl e ↦ rw e (record { counted = refl; capacity = refl; slots = refl; bounded = omega arith })
  | inr e ↦ rw e tt
]

initial-IsWellFormed : (l : Lines) (h h' : Heap) → lines_init h ≡ (some l, h') → IsWellFormed l
unfolding Started
initial-IsWellFormed l h h' e = rw (ap (λ r. r.0) e) at (lines_init-Started h)

-- An append of a line into a slot that is there.
store_line-Appends :
    (line : Option Bytes) (l : Lines) (h h' : Heap) (room : ℕ)
    → l.len ≡ length l.array
    → l.cap ≡ 64
    → l.len < 128
    → room ≡ (if leb (l.len + 1) 64 then 64 else 128)
    → Appends line l h (store_line line (record l { room = room }) h')
store_line-Appends line l h h' room counted capacity small slots =
    let inside : ltb l.len room ≡ true = ground arith in
    rw inside (
      (small, refl),
      record {
        counted = omega (arith, counted, length-append l.array (line ∷ []));
        capacity = capacity;
        slots = slots;
        bounded = omega arith;
      },
    )

lines_append-Appends :
    (line : Option Bytes) (l : Lines) (h : Heap)
    → IsWellFormed l
    → Appends line l h (lines_append line l h)
unfolding lines_append lines_resize after_resize
lines_append-Appends line l h w = elim (Bool-cases (leb l.cap l.len)) [
  | inl t ↦
      let full : 64 ≤ l.len = let c = w.capacity in ground arith in
      elim (Bool-cases (allocate h).0) [
        | inr e ↦ rw (t, e) ((refl, full), e)
        | inl e ↦ elim (Bool-cases (ltb l.len 128)) [
          | inl small ↦
              let more : l.cap * 2 ≡ (if leb (l.len + 1) 64 then 64 else 128) =
                let c = w.capacity in ground arith in
              rw (t, e)
                (store_line-Appends line l h (allocate h).1 (l.cap * 2) w.counted w.capacity
                  (ltb→lt l.len 128 small) more)
          | inr large ↦
              let twice : l.cap * 2 ≡ 128 = omega (arith, w.capacity) in
              let same : l.len ≡ 128 = let b = w.bounded in ground arith in
              rw (t, e, twice, large) (same, e)
        ]
      ]
  | inr t ↦
      let less : l.len < 64 = let c = w.capacity in ground arith in
      let slots : l.room ≡ (if leb (l.len + 1) 64 then 64 else 128) =
        let s = w.slots in ground arith in
      rw t (store_line-Appends line l h h l.room w.counted w.capacity (omega arith) slots)
]

after-IsWellFormed :
    (line : Option Bytes) (l l' : Lines) (h h' : Heap)
    → IsWellFormed l
    → lines_append line l h ≡ returns (l', h')
    → IsWellFormed l'
after-IsWellFormed line l l' h h' w e =
    let step : Appends line l h (returns (l', h')) = rw e at (lines_append-Appends line l h w) in
    step.1

Reachable-IsWellFormed : (l : Lines) → Reachable l → IsWellFormed l
Reachable-IsWellFormed l (Reachable.init h h' e) = initial-IsWellFormed l h h' e
Reachable-IsWellFormed l' (Reachable.append {l} line h h' before e) =
    after-IsWellFormed line l l' h h' (Reachable-IsWellFormed l before) e

-- The array that lines_init and any calls of lines_append leave, whatever lines they append and
-- however the allocations go: `len` counts the lines, `cap` is still 64, there are 64 slots for up to
-- 64 lines and 128 for more, and no more lines than 128. A further call appends its line behind
-- the others if there are fewer than 128; it ends the program with 1 only when there are 64 or
-- more and memory is refused, and it stores past the slots only when there are 128.
pub Reachable-Appends :
    (l : Lines)
    → Reachable l
    → IsWellFormed l × ((line : Option Bytes) (h : Heap) → Appends line l h (lines_append line l h))
Reachable-Appends l reached =
    let w = Reachable-IsWellFormed l reached in (w, λ line h. lines_append-Appends line l h w)

pub lines_append-filled :
    (line : Option Bytes) (a : List (Option Bytes))
    → length a < 128
    → lines_append line (filled a) [] ≡ returns (filled (a ++ line ∷ []), [])
unfolding lines_append lines_resize after_resize
lines_append-filled line a h =
    let size : length (a ++ line ∷ []) ≡ length a + 1 = length-append a (line ∷ []) in
    rw size (ground arith)

pub lines_append-overflow :
    (line : Option Bytes) (a : List (Option Bytes))
    → length a ≡ 128
    → lines_append line (filled a) [] ≡ undefined
unfolding lines_append lines_resize after_resize
lines_append-overflow line a h = rw h refl
