-- ===== src/Otp.antt =====
-- programs/otp.c: encrypts a file with a one-time pad that it draws from /dev/urandom.
mod Samples
pub mod Xor
pub mod Loop
pub mod Whole
use punchcardos.Prelude.{
  ℕ, zero, suc, ◌+◌, ◌*◌, ◌/◌, ◌%◌, Bool, true, false, List, [], ◌∷◌, ◌++◌, Bytes, Option, none,
  some, length, min, take, ltb, ◌==◌, if◌then◌else◌, codes,
}
use punchcardos.Sys.{
  ReadEvent, got, failed, Output, open_output, Written, count, eintr, error, write, Outcome,
  returns, undefined, exit_success, exit_failure,
}

-- READ_BUFFER_SIZE
abbrev pub read_buffer_size : ℕ
read_buffer_size = 497

-- The exclusive or of two numbers of so many bits, the lowest first.
unfoldable pub xor_bits : ℕ → ℕ → ℕ → ℕ
xor_bits zero a b = 0
xor_bits (suc w) a b = (a + b) % 2 + 2 * xor_bits w (a / 2) (b / 2)

abbrev pub xor : ℕ → ℕ → ℕ
xor a b = xor_bits 8 a b

-- for (int i = 0; i < len; i++), where `len` is the length of the shorter of the two.
unfoldable pub xor_bytes : Bytes → Bytes → Bytes
xor_bytes [] ys = []
xor_bytes (x ∷ xs) [] = []
xor_bytes (x ∷ xs) (y ∷ ys) = xor x y ∷ xor_bytes xs ys

-- bytes_written <= 0
abbrev pub nothing_written : Written → Bool
nothing_written (count n) = n == 0
nothing_written eintr = true
nothing_written error = true

-- What the program leaves: its status, the key file and the ciphertext file.
abbrev pub Encrypted : Type 0
Encrypted = ℕ × (Output × Output)

-- The writes of one round. That a write may take a part only is not looked at.
write_both : Bytes → Bytes → Output → Output → (Output → Output → Encrypted) → Encrypted
write_both key text k c again =
    if nothing_written (write key k).0
    then (exit_failure, ((write key k).1, c))
    else if nothing_written (write text c).0
    then (exit_failure, ((write key k).1, (write text c).1))
    else again (write key k).1 (write text c).1

-- A round with a part of the plaintext and a part of the key.
pub encrypt : Bytes → Bytes → Output → Output → (Output → Output → Encrypted) → Encrypted
unfolding write_both xor_bytes
encrypt plain random k c again =
    if length random == read_buffer_size
    then write_both (take (min (length plain) (length random)) random) (xor_bytes plain random) k c
        again
    else (exit_failure, (k, c))

-- The loop over the plaintext, with the reads of the two files that are left. A script of reads is one
-- that reads of 497 bytes can give: none gives more. A read that gives nothing is the end of a file.
unfoldable pub otp_loop : List ReadEvent → List ReadEvent → Output → Output → Encrypted
unfolding encrypt
otp_loop [] rs k c = (exit_success, (k, c))
otp_loop (failed ∷ ps) rs k c = (exit_failure, (k, c))
otp_loop (got [] ∷ ps) rs k c = (exit_success, (k, c))
otp_loop (got (b ∷ bs) ∷ ps) [] k c = (exit_failure, (k, c))
otp_loop (got (b ∷ bs) ∷ ps) (failed ∷ rs) k c = (exit_failure, (k, c))
otp_loop (got (b ∷ bs) ∷ ps) (got random ∷ rs) k c =
    encrypt (b ∷ bs) random k c (λ k' c'. otp_loop ps rs k' c')

-- The files: the reads that /dev/urandom and the plaintext give, and the outputs that the files of the
-- two names become, or `none` where a file cannot be opened.
pub record Files : Type 0 where
  pub urandom : Option (List ReadEvent)
  pub plaintext : Bytes → Option (List ReadEvent)
  pub created : Bytes → Option Output

-- How the program ends: its status, and the two files as far as they have been opened.
pub record Ended : Type 0 where
  pub status : ℕ
  pub key : Option Output
  pub ciphertext : Option Output

abbrev stopped : Option Output → Outcome Ended
stopped k = returns (record { status = exit_failure; key = k; ciphertext = none })

pub finished : Encrypted → Ended
finished r = record { status = r.0; key = some r.1.0; ciphertext = some r.1.1 }

-- The name is copied into an array of 255 bytes.
abbrev copied_size : ℕ
copied_size = 255

-- From the opening of the ciphertext file on: its name is the copy with four more bytes.
with_key : Files → Bytes → List ReadEvent → List ReadEvent → Option Output → Outcome Ended
unfolding otp_loop finished
with_key fs name rs ps none = stopped none
with_key fs name rs ps (some k) =
    if ltb (length name + 4) copied_size
    then elim (fs.created (name ++ codes ".enc")) [
      | none ↦ stopped (some k)
      | some c ↦ returns (finished (otp_loop ps rs k c))
    ]
    else undefined

-- The name of the key file is made in the place of the argument. What that overwrites behind it is
-- not part of the model.
with_plaintext : Files → Bytes → List ReadEvent → Option (List ReadEvent) → Outcome Ended
unfolding with_key
with_plaintext fs name rs none = stopped none
with_plaintext fs name rs (some ps) = with_key fs name rs ps (fs.created (name ++ codes ".otpkey"))

with_randomness : Files → Bytes → Option (List ReadEvent) → Outcome Ended
unfolding with_plaintext
with_randomness fs name none = stopped none
with_randomness fs name (some rs) =
    if ltb (length name) copied_size
    then with_plaintext fs name rs (fs.plaintext name)
    else undefined

-- The main function on the arguments behind the program's name.
unfoldable pub otp : Files → List Bytes → Outcome Ended
unfolding with_randomness
otp fs (name ∷ []) = with_randomness fs name fs.urandom
otp fs _ = stopped none
