-- ===== src/Otp/Samples.antt =====
-- Runs of programs/otp.c.
use punchcardos.Otp.Loop.{AreReads}
use punchcardos.Otp.Whole.{Opens, otp-decrypts, Full, otp_loop-succeeds}
use punchcardos.Otp.{Files, xor_bytes, otp, otp_loop}
use punchcardos.Prelude.{
  ℕ, zero, suc, ◌≡◌, refl, some, none, List, [], ◌∷◌, Bytes, length, take, codes, str_eq,
  if◌then◌else◌, arith,
}
use punchcardos.Sys.Reads.{AreBytes, readable, NoFault}
use punchcardos.Sys.{ReadEvent, got, open_output, returns, exit_success}

abbrev noise : ℕ → Bytes
noise zero = []
noise (suc n) = 0xA5 ∷ noise n

abbrev random : List ReadEvent
random = got (noise 497) ∷ []

abbrev secret : List ReadEvent
secret = got (codes "ab") ∷ []

secret-AreReads : AreReads secret
secret-AreReads =
    AreReads.read (AreBytes.cons (ground arith) (AreBytes.cons (ground arith) AreBytes.nil))
      (ground arith) AreReads.nil

abbrev files : Files
files = record {
  urandom = some random;
  plaintext = λ name. if str_eq name (codes "f") then some secret else none;
  created = λ name. some (open_output []);
}

files-open : Opens files (codes "f") secret random
unfolding str_eq
files-open = record { random = refl; plain = refl; key_created = refl; cipher_created = refl }

otp-decrypts_example :
    (status : ℕ) × (pad : Bytes) × (cipher : Bytes) × (otp files (codes "f" ∷ [])
      ≡ returns (record {
        status = status;
        key = some (open_output pad);
        ciphertext = some (open_output cipher);
      }))
    × (length pad ≡ length cipher)
    × (xor_bytes cipher pad ≡ take (length cipher) (readable secret))
    × (status ≡ exit_success → xor_bytes cipher pad ≡ readable secret)
otp-decrypts_example =
    otp-decrypts files (codes "f") secret random files-open (ground arith) secret-AreReads

otp_loop-succeeds_example :
    (otp_loop secret random (open_output []) (open_output [])).0 ≡ exit_success
otp_loop-succeeds_example =
    otp_loop-succeeds secret random [] [] secret-AreReads (NoFault.cons NoFault.nil)
      (Full.cons refl Full.nil) (ground arith)
