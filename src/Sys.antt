-- ===== src/Sys.antt =====
-- The system calls that the programs make, as an environment that answers from a script.
-- A script is a list of outcomes, one for each call; once it is used up, a read finds the end of the
-- file and a write takes all that it is given.
pub mod Memory
pub mod Reads
use punchcardos.Prelude.{ℕ, Bytes, List, [], ◌∷◌, ◌++◌, length, take}

-- What one `read` of a file returns: bytes (their number is the return value), or -1.
pub data ReadEvent : Type 0 where
  got : Bytes → ReadEvent
  failed : ReadEvent

-- What one `read` of a single byte returns. The end of the list is the end of the file.
pub data ByteEvent : Type 0 where
  byte : ℕ → ByteEvent
  failed : ByteEvent

-- How one `write` goes: it takes at most so many bytes, or returns -1 with `EINTR` or another error.
pub data WriteEvent : Type 0 where
  accept : ℕ → WriteEvent
  interrupt : WriteEvent
  refuse : WriteEvent

-- A file open for writing: what has been written, and how the coming calls go.
pub record Output : Type 0 where
  pub written : Bytes
  pub events : List WriteEvent

-- The return value of `write`, with the part of `errno` that the programs look at.
pub data Written : Type 0 where
  count : ℕ → Written
  eintr error : Written

write_event : List WriteEvent → Bytes → Bytes → Written × Output
write_event [] bs w = (count (length bs), record { written = w ++ bs; events = [] })
write_event (accept k ∷ es) bs w =
    (count (length (take k bs)), record { written = w ++ take k bs; events = es })
write_event (interrupt ∷ es) bs w = (eintr, record { written = w; events = es })
write_event (refuse ∷ es) bs w = (error, record { written = w; events = es })

unfoldable pub write : Bytes → Output → Written × Output
unfolding write_event
write bs o = write_event o.events bs o.written

-- An output that refuses nothing.
abbrev pub open_output : Bytes → Output
open_output w = record { written = w; events = [] }

-- How a run of a function or a program goes: it returns, it makes the program end with a status, it
-- does what C leaves undefined (or traps), or the rounds of the model run out.
pub data Outcome {ℓ} (A : Type ℓ) : Type ℓ where
  returns : A → Outcome A
  exits : ℕ → Outcome A
  undefined : Outcome A
  out_of_fuel : Outcome A

-- `EXIT_SUCCESS` and `EXIT_FAILURE`
abbrev pub exit_success : ℕ
exit_success = 0

abbrev pub exit_failure : ℕ
exit_failure = 1
