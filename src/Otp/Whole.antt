-- ===== src/Otp/Whole.antt =====
-- What the main function of programs/otp.c leaves.
use punchcardos.Otp.Loop.{AreReads, otp_loop-IsPadded, encrypt-open}
use punchcardos.Otp.{
  Encrypted, read_buffer_size, xor_bytes, otp_loop, Files, finished, with_key, with_plaintext,
  with_randomness, otp,
}
use punchcardos.Prelude.{
  ℕ, ◌+◌, ◌<◌, ◌≤◌, ◌≡◌, ◌∙◌, refl, some, List, [], ◌∷◌, ◌++◌, Bytes, length, take, take_all, codes,
  lt→ltb, arith,
}
use punchcardos.Sys.Reads.{readable, NoFault}
use punchcardos.Sys.{ReadEvent, got, failed, Output, open_output, returns, exit_success}

-- The files that the program opens, the two that it creates being empty.
pub record Opens (fs : Files) (name : Bytes) (ps rs : List ReadEvent) : Type 0 where
  pub random : fs.urandom ≡ some rs
  pub plain : fs.plaintext name ≡ some ps
  pub key_created : fs.created (name ++ codes ".otpkey") ≡ some (open_output [])
  pub cipher_created : fs.created (name ++ codes ".enc") ≡ some (open_output [])

otp-of_loop :
    (fs : Files) (name : Bytes) (ps rs : List ReadEvent)
    → Opens fs name ps rs
    → length name + 4 < 255
    → otp fs (name ∷ []) ≡ returns (finished (otp_loop ps rs (open_output []) (open_output [])))
unfolding otp with_randomness with_plaintext with_key
otp-of_loop fs name ps rs o h = rw o.random (
    rw (lt→ltb (length name) 255 (omega arith), o.plain)
      (rw o.key_created (rw (lt→ltb (length name + 4) 255 h) (rw o.cipher_created refl))))

-- With a file name that fits, the exclusive or of the two files that the program leaves is the plaintext
-- as far as it was encrypted, however the reads go; with status 0 it is all of the plaintext. Here the
-- two files are empty at first and take all that is written.
pub otp-decrypts :
    (fs : Files) (name : Bytes) (ps rs : List ReadEvent)
    → Opens fs name ps rs
    → length name + 4 < 255
    → AreReads ps
    → (status : ℕ) × (pad : Bytes) × (cipher : Bytes) × (otp fs (name ∷ [])
        ≡ returns (record {
          status = status;
          key = some (open_output pad);
          ciphertext = some (open_output cipher);
        }))
      × (length pad ≡ length cipher)
      × (xor_bytes cipher pad ≡ take (length cipher) (readable ps))
      × (status ≡ exit_success → xor_bytes cipher pad ≡ readable ps)
unfolding finished
otp-decrypts fs name ps rs o h a =
    let p = otp_loop-IsPadded ps rs [] [] a in
    let run = otp-of_loop fs name ps rs o h in
    (
      (otp_loop ps rs (open_output []) (open_output [])).0,
      p.pad,
      p.cipher,
      rw (p.key_file, p.cipher_file) at run,
      p.sizes,
      p.decrypted,
      λ e. p.decrypted ∙ take_all (length p.cipher) (readable ps) (omega (arith, p.complete e)),
    )

-- Reads that fill the buffer.
pub data Full : List ReadEvent → Type 0 where
  nil : Full []
  cons :
      {bs : Bytes} {es : List ReadEvent}
      → length bs ≡ read_buffer_size
      → Full es
      → Full (got bs ∷ es)

-- When every read of the plaintext goes well, and /dev/urandom fills the buffer as often as the plaintext is
-- read, the loop ends with success.
pub otp_loop-succeeds :
    (ps rs : List ReadEvent) (k c : Bytes)
    → AreReads ps
    → NoFault ps
    → Full rs
    → length ps ≤ length rs
    → (otp_loop ps rs (open_output k) (open_output c)).0 ≡ exit_success
unfolding otp_loop
otp_loop-succeeds [] rs k c a n f h = refl
otp_loop-succeeds (failed ∷ ps) rs k c a n f h = elim n [ ]
otp_loop-succeeds (got (b ∷ bs) ∷ ps) (failed ∷ rs) k c a n f h = elim f [ ]
otp_loop-succeeds (got [] ∷ ps) rs k c a n f h = refl
otp_loop-succeeds (got (b ∷ bs) ∷ ps) [] k c a n f h = absurd (omega arith)
otp_loop-succeeds (got (b ∷ bs) ∷ ps) (got random ∷ rs) k c (AreReads.read are m a) (NoFault.cons n)
      (Full.cons e f) h =
    let again : Output → Output → Encrypted = λ k' c'. otp_loop ps rs k' c' in
    rw (encrypt-open b bs random k c again (omega arith) e)
      (otp_loop-succeeds ps rs _ _ a n f (omega arith))
