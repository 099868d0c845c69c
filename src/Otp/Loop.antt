-- ===== src/Otp/Loop.antt =====
-- What the loop of programs/otp.c leaves in the key file and the ciphertext file.
use punchcardos.Otp.Xor.{xor_bytes-take, length-xor_bytes, xor_bytes-xor_bytes, xor_bytes-append}
use punchcardos.Otp.{Encrypted, read_buffer_size, xor_bytes, write_both, encrypt, otp_loop}
use punchcardos.Prelude.{
  ℕ, suc, ◌+◌, ◌<◌, ◌≤◌, ◌≡◌, ◌∙◌, sym, refl, ap, true, false, List, [], ◌∷◌, ◌++◌, Bytes, length,
  min, take, length-append, append_assoc, append-nil, length-take, ==_ne, ◌==◌, Bool-cases, inl,
  inr, arith,
}
use punchcardos.Sys.Reads.{AreBytes, readable}
use punchcardos.Sys.{ReadEvent, got, failed, Output, open_output, write, exit_success, exit_failure}

-- Reads of 497 bytes, of a file.
pub data AreReads : List ReadEvent → Type 0 where
  nil : AreReads []
  fault : {es : List ReadEvent} → AreReads es → AreReads (failed ∷ es)
  read :
      {bs : Bytes} {es : List ReadEvent}
      → AreBytes bs
      → length bs ≤ read_buffer_size
      → AreReads es
      → AreReads (got bs ∷ es)

-- The key file and the ciphertext file have grown by equally many bytes, which give the plaintext back
-- as far as it has been encrypted; after a success that is all of it.
pub record IsPadded (text : Bytes) (k c : Bytes) (r : Encrypted) : Type 0 where
  pub pad : Bytes
  pub cipher : Bytes
  pub key_file : r.1.0 ≡ open_output (k ++ pad)
  pub cipher_file : r.1.1 ≡ open_output (c ++ cipher)
  pub sizes : length pad ≡ length cipher
  pub decrypted : xor_bytes cipher pad ≡ take (length cipher) text
  pub complete : r.0 ≡ exit_success → length cipher ≡ length text

nothing :
    (text k c : Bytes) (status : ℕ)
    → (status ≡ exit_success → text ≡ [])
    → IsPadded text k c (status, (open_output k, open_output c))
unfolding xor_bytes
nothing text k c status h = record {
  pad = [];
  cipher = [];
  key_file = rw (append-nil k) refl;
  cipher_file = rw (append-nil c) refl;
  sizes = refl;
  decrypted = refl;
  complete = λ e. sym (ap length (h e));
}

take-append_more : (xs ys : Bytes) (n : ℕ) → take (length xs + n) (xs ++ ys) ≡ xs ++ take n ys
take-append_more [] ys n = let e : 0 + n ≡ n = omega arith in rw e refl
take-append_more (x ∷ xs) ys n =
    let e : suc (length xs) + n ≡ suc (length xs + n) = omega arith in
    rw e (ap (◌∷◌ x) (take-append_more xs ys n))

-- One round more in front.
grown :
    (part random text k c : Bytes) (r : Encrypted)
    → AreBytes part
    → length part ≤ length random
    → IsPadded text (k ++ take (length part) random) (c ++ xor_bytes part random) r
    → IsPadded (part ++ text) k c r
grown part random text k c r bs h p =
    let key = take (length part) random in
    let code = xor_bytes part random in
    let n : length code ≡ length part = length-xor_bytes part random h in
    let m : length key ≡ length part = omega (arith, length-take (length part) random) in
    let size : length (code ++ p.cipher) ≡ length part + length p.cipher =
      omega (arith, length-append code p.cipher) in
    let front : xor_bytes code key ≡ part =
      (rw n at (xor_bytes-take code random)) ∙ xor_bytes-xor_bytes part random bs h in
    record {
      pad = key ++ p.pad;
      cipher = code ++ p.cipher;
      key_file = rw (append_assoc k key p.pad) at p.key_file;
      cipher_file = rw (append_assoc c code p.cipher) at p.cipher_file;
      sizes = omega (arith, length-append key p.pad, p.sizes);
      decrypted =
          (let both = xor_bytes-append code key p.cipher p.pad (omega arith) in
            rw (both, front, size, p.decrypted, take-append_more part text (length p.cipher)) refl);
      complete = λ e. omega (arith, p.complete e, length-append part text);
    }

write_both-open :
    (key text k c : Bytes) (again : Output → Output → Encrypted)
    → 0 < length key
    → 0 < length text
    → write_both key text (open_output k) (open_output c) again
      ≡ again (open_output (k ++ key)) (open_output (c ++ text))
unfolding write_both write
write_both-open key text k c again hk ht =
    rw (==_ne (length key) 0 (ground arith), ==_ne (length text) 0 (ground arith)) refl

pub encrypt-open :
    (x : ℕ) (xs random k c : Bytes) (again : Output → Output → Encrypted)
    → length (x ∷ xs) ≤ length random
    → length random ≡ read_buffer_size
    → encrypt (x ∷ xs) random (open_output k) (open_output c) again
      ≡ again
          (open_output (k ++ take (length (x ∷ xs)) random))
          (open_output (c ++ xor_bytes (x ∷ xs) random))
unfolding encrypt
encrypt-open x xs random k c again h full =
    let n : min (length (x ∷ xs)) (length random) ≡ length (x ∷ xs) = omega arith in
    let all : (length random == read_buffer_size) ≡ true = ground arith in
    let key = take (length (x ∷ xs)) random in
    let m : length key ≡ length (x ∷ xs) = omega (arith, length-take (length (x ∷ xs)) random) in
    let e = length-xor_bytes (x ∷ xs) random h in
    rw (all, n)
      (write_both-open key (xor_bytes (x ∷ xs) random) k c again (omega arith) (omega arith))

encrypt-short :
    (plain random : Bytes) (k c : Output) (again : Output → Output → Encrypted)
    → (length random == read_buffer_size) ≡ false
    → encrypt plain random k c again ≡ (exit_failure, (k, c))
unfolding encrypt
encrypt-short plain random k c again h = rw h refl

not_success : {A : Type 0} → exit_failure ≡ exit_success → A
not_success h = absurd (omega arith)

-- Whatever the reads of the two files give, with files that take all that is written: what is in them
-- decrypts to the plaintext as far as it goes, and to all of it when the program succeeds.
pub otp_loop-IsPadded :
    (ps rs : List ReadEvent) (k c : Bytes)
    → AreReads ps
    → IsPadded (readable ps) k c (otp_loop ps rs (open_output k) (open_output c))
unfolding otp_loop
otp_loop-IsPadded [] rs k c a = nothing [] k c exit_success (λ e. refl)
otp_loop-IsPadded (failed ∷ ps) rs k c a = nothing [] k c exit_failure (λ e. refl)
otp_loop-IsPadded (got [] ∷ ps) rs k c a = nothing [] k c exit_success (λ e. refl)
otp_loop-IsPadded (got (b ∷ bs) ∷ ps) [] k c a = nothing _ k c exit_failure not_success
otp_loop-IsPadded (got (b ∷ bs) ∷ ps) (failed ∷ rs) k c a = nothing _ k c exit_failure not_success
otp_loop-IsPadded (got (b ∷ bs) ∷ ps) (got random ∷ rs) k c (AreReads.read are h more) =
    let again : Output → Output → Encrypted = λ k' c'. otp_loop ps rs k' c' in
    elim (Bool-cases (length random == read_buffer_size)) [
      | inr short ↦
          rw (encrypt-short (b ∷ bs) random (open_output k) (open_output c) again short)
            (nothing _ k c exit_failure not_success)
      | inl full ↦
          let size : length random ≡ read_buffer_size = ground arith in
          let enough : length (b ∷ bs) ≤ length random = omega arith in
          let rest =
            otp_loop-IsPadded ps rs (k ++ take (length (b ∷ bs)) random)
              (c ++ xor_bytes (b ∷ bs) random) more in
          rw (encrypt-open b bs random k c again enough size)
            (grown (b ∷ bs) random (readable ps) k c _ are enough rest)
    ]
