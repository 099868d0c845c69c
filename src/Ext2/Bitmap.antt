-- ===== src/Ext2/Bitmap.antt =====
-- The bitmaps that write_bitmap of programs/e2.c writes.
use punchcardos.Ext2.Layout.{block_size}
use punchcardos.Ext2.{
  Memory, Result, on_written, put, on_byte, put_byte, write_padding, bitmap_loop, rembits,
  write_bitmap,
}
use punchcardos.Prelude.{
  ℕ, zero, suc, ◌+◌, ◌-◌, ◌*◌, ◌/◌, ◌%◌, ◌^◌, ◌<◌, ◌≤◌, ◌≡◌, refl, sym, ap, ◌∙◌, Bool, true, false,
  List, [], ◌∷◌, ◌++◌, Bytes, some, length, ltb, ◌==◌, if◌then◌else◌, append_assoc, append-nil,
  Bool-cases, inl, inr, ltb→lt, lt→leb_false, arith,
}
use punchcardos.Sys.{Output, open_output, write}

-- The bits of a byte and of several, the lowest of each first.
abbrev pub bits : ℕ → ℕ → List Bool
bits zero b = []
bits (suc w) b = (b % 2 == 1) ∷ bits w (b / 2)

abbrev pub bits_of : Bytes → List Bool
bits_of [] = []
bits_of (b ∷ bytes) = bits 8 b ++ bits_of bytes

abbrev pub repeated {ℓ} : {A : Type ℓ} → ℕ → A → List A
repeated zero x = []
repeated (suc n) x = x ∷ repeated n x

rembits-bits : (n : ℕ) → n ≤ 8 → bits 8 (rembits n) ≡ repeated n true ++ repeated (8 - n) false
rembits-bits zero h = refl
rembits-bits (suc zero) h = refl
rembits-bits (suc (suc zero)) h = refl
rembits-bits (suc (suc (suc zero))) h = refl
rembits-bits (suc (suc (suc (suc zero)))) h = refl
rembits-bits (suc (suc (suc (suc (suc zero))))) h = refl
rembits-bits (suc (suc (suc (suc (suc (suc zero)))))) h = refl
rembits-bits (suc (suc (suc (suc (suc (suc (suc zero))))))) h = refl
rembits-bits (suc (suc (suc (suc (suc (suc (suc (suc zero)))))))) h = refl
rembits-bits (suc (suc (suc (suc (suc (suc (suc (suc (suc n))))))))) h = absurd (omega arith)

-- What the rounds of the loop and the write behind it put out.
abbrev pub bitmap_bytes : ℕ → ℕ → Bytes
bitmap_bytes zero n = rembits n ∷ []
bitmap_bytes (suc f) n =
    let rest = bitmap_bytes f (n - 8) in if ltb 8 n then 0xFF ∷ rest else rembits n ∷ []

repeated-add {ℓ} :
    {A : Type ℓ} (m n : ℕ) (x : A) → repeated m x ++ repeated n x ≡ repeated (m + n) x
repeated-add zero n x = let e : 0 + n ≡ n = omega arith in rw e refl
repeated-add (suc m) n x =
    let e : suc m + n ≡ suc (m + n) = omega arith in rw e (ap (◌∷◌ x) (repeated-add m n x))

-- The bits are n that are set, and behind them clear ones up to the end of the last byte.
abbrev pub LeadingBits : ℕ → Bytes → Type 0
LeadingBits n bytes =
    (bits_of bytes ≡ repeated n true ++ repeated (8 * length bytes - n) false)
    × (n ≤ 8 * length bytes)

last-LeadingBits : (n : ℕ) → n ≤ 8 → LeadingBits n (rembits n ∷ [])
last-LeadingBits n h = (append-nil _ ∙ rembits-bits n h, omega arith)

first-LeadingBits :
    (n : ℕ) (bytes : Bytes) → 8 < n → LeadingBits (n - 8) bytes → LeadingBits n (0xFF ∷ bytes)
first-LeadingBits n bytes h l =
    let all : 8 + (n - 8) ≡ n = omega arith in
    let size : 8 * suc (length bytes) - n ≡ 8 * length bytes - (n - 8) = omega arith in
    let ones : repeated n true ≡ repeated 8 true ++ repeated (n - 8) true =
      rw all at (sym (repeated-add 8 (n - 8) true)) in
    (rw (size, ones) (ap (λ r. repeated 8 true ++ r) l.0), omega (arith, l.1))

bitmap-LeadingBits : (f n : ℕ) → n ≤ 8 * f + 8 → LeadingBits n (bitmap_bytes f n)
bitmap-LeadingBits zero n h = last-LeadingBits n (omega arith)
bitmap-LeadingBits (suc f) n h = elim (Bool-cases (ltb 8 n)) [
  | inl more ↦
      rw (more, bitmap_bytes)
        (first-LeadingBits n (bitmap_bytes f (n - 8)) (ground arith)
          (bitmap-LeadingBits f (n - 8) (omega arith)))
  | inr last ↦ rw (last, bitmap_bytes) (last-LeadingBits n (ground arith))
]

length-bitmap_bytes : (f n : ℕ) → 0 < n → n ≤ 8 * f + 8 → 8 * length (bitmap_bytes f n) < n + 8
length-bitmap_bytes zero n pos h = omega arith
length-bitmap_bytes (suc f) n pos h = elim (Bool-cases (ltb 8 n)) [
  | inl more ↦
      let big = ltb→lt 8 n more in
      rw (more, bitmap_bytes)
        (omega (arith, length-bitmap_bytes f (n - 8) (omega arith) (omega arith)))
  | inr last ↦ rw (last, bitmap_bytes) (omega arith)
]

pub put_byte-open :
    (b : ℕ) (w : Bytes) (again : Output → Result)
    → put_byte b (open_output w) again ≡ again (open_output (w ++ b ∷ []))
unfolding put_byte on_byte write
put_byte-open b w again = refl

pub put-open :
    (bytes w : Bytes) (again : Output → Result)
    → put bytes (open_output w) again ≡ again (open_output (w ++ bytes))
unfolding put on_written write
put-open bytes w again = refl

pub write_padding-open :
    (m : Memory) (size : ℕ) (padbuf w : Bytes) (again : Output → Result)
    → size < 2 ^ 31
    → m.malloc size ≡ some padbuf
    → write_padding m size (open_output w) again ≡ again (open_output (w ++ padbuf))
unfolding write_padding
write_padding-open m size padbuf w again h e =
    rw (lt→leb_false (2 ^ 31) size h, write_padding) (rw e (put-open padbuf w again))

bytes_more : (f n : ℕ) → ltb 8 n ≡ true → bitmap_bytes (suc f) n ≡ 0xFF ∷ bitmap_bytes f (n - 8)
bytes_more f n e = rw (e, bitmap_bytes) refl

bytes_last : (f n : ℕ) → ltb 8 n ≡ false → bitmap_bytes (suc f) n ≡ rembits n ∷ []
bytes_last f n e = rw (e, bitmap_bytes) refl

loop_more :
    (f n b : ℕ) (o : Output) (after : ℕ → ℕ → Output → Result)
    → ltb 8 n ≡ true
    → bitmap_loop (suc f) n b o after
      ≡ put_byte 0xFF o (λ o'. bitmap_loop f (n - 8) ((b + 1) % 2 ^ 32) o' after)
unfolding bitmap_loop
loop_more f n b o after e = rw (e, bitmap_loop) refl

loop_last :
    (f n b : ℕ) (o : Output) (after : ℕ → ℕ → Output → Result)
    → ltb 8 n ≡ false
    → bitmap_loop (suc f) n b o after ≡ after n b o
unfolding bitmap_loop
loop_last f n b o after e = rw (e, bitmap_loop) refl

-- The loop and the write behind it, with whatever follows.
bitmap_loop-bytes :
    (f n b : ℕ) (w : Bytes) (tail : ℕ → Output → Result)
    → b + length (bitmap_bytes f n) < 2 ^ 32
    → bitmap_loop f n b
        (open_output w)
        (λ left written o. put_byte (rembits left) o (λ o'. tail ((written + 1) % 2 ^ 32) o'))
      ≡ tail (b + length (bitmap_bytes f n)) (open_output (w ++ bitmap_bytes f n))
unfolding bitmap_loop
bitmap_loop-bytes zero n b w tail h =
    let e : (b + 1) % 2 ^ 32 ≡ b + 1 = omega arith in
    rw (put_byte-open (rembits n) w (λ o'. tail ((b + 1) % 2 ^ 32) o'), e) refl
bitmap_loop-bytes (suc f) n b w tail h = elim (Bool-cases (ltb 8 n)) [
  | inl more ↦
      let rest = bitmap_bytes f (n - 8) in
      let size : length (bitmap_bytes (suc f) n) ≡ suc (length rest) =
        ap length (bytes_more f n more) in
      let e : (b + 1) % 2 ^ 32 ≡ b + 1 = omega arith in
      let total : b + 1 + length rest ≡ b + suc (length rest) = omega arith in
      let after : ℕ → ℕ → Output → Result =
        λ left written o. put_byte (rembits left) o (λ o'. tail ((written + 1) % 2 ^ 32) o') in
      let again = bitmap_loop-bytes f (n - 8) (b + 1) (w ++ 0xFF ∷ []) tail (omega arith) in
      loop_more f n b (open_output w) after more
      ∙ (put_byte-open 0xFF w (λ o'. bitmap_loop f (n - 8) ((b + 1) % 2 ^ 32) o' after)
          ∙ rw (bytes_more f n more, e) (rw (total, append_assoc w (0xFF ∷ []) rest) at again))
  | inr last ↦
      let size : length (bitmap_bytes (suc f) n) ≡ 1 = ap length (bytes_last f n last) in
      let e : (b + 1) % 2 ^ 32 ≡ b + 1 = omega arith in
      let after : ℕ → ℕ → Output → Result =
        λ left written o. put_byte (rembits left) o (λ o'. tail ((written + 1) % 2 ^ 32) o') in
      loop_last f n b (open_output w) after last
      ∙ (put_byte-open (rembits n) w (λ o'. tail ((b + 1) % 2 ^ 32) o')
          ∙ rw (bytes_last f n last, e) refl)
]

rest_of_block :
    (m : Memory) (total : ℕ) (pad w : Bytes)
    → total ≤ block_size
    → m.malloc (block_size - total) ≡ some pad
    → write_padding m
        ((block_size + (2 ^ 32 - total)) % 2 ^ 32)
        (open_output w)
        (λ o. (some total, o))
      ≡ (some total, open_output (w ++ pad))
rest_of_block m total pad w h e =
    let size : (block_size + (2 ^ 32 - total)) % 2 ^ 32 ≡ block_size - total = omega arith in
    rw size (write_padding-open m (block_size - total) pad w (λ o. (some total, o)) (omega arith) e)

-- When the variable that counts the bytes happens to be 0 at first and malloc gives the padding: the
-- bitmap is a block of which the n lowest bits are set and no others up to the end of the byte, and the
-- rest is what malloc gave. The result is the number of bytes with bits.
pub write_bitmap-LeadingBits :
    (m : Memory) (n : ℕ) (w : Bytes)
    → 0 < n
    → n ≤ 8 * block_size
    → m.garbage ≡ 0
    → ((size : ℕ)
        → size ≤ block_size
        → (pad : Bytes) × (m.malloc size ≡ some pad) × (length pad ≡ size))
    → (bytes : Bytes) × (pad : Bytes) × (write_bitmap m n (open_output w)
        ≡ (some (length bytes), open_output ((w ++ bytes) ++ pad)))
      × (length bytes + length pad ≡ block_size)
      × LeadingBits n bytes
unfolding write_bitmap
write_bitmap-LeadingBits m n w pos h zero_count given =
    let bytes = bitmap_bytes n n in
    let small = length-bitmap_bytes n n pos (omega arith) in
    let pad = given (block_size - length bytes) (omega arith) in
    let tail : ℕ → Output → Result = λ total o.
      write_padding m ((block_size + (2 ^ 32 - total)) % 2 ^ 32) o (λ o3. (some total, o3)) in
    let counted : 0 + length bytes ≡ length bytes = omega arith in
    (
      bytes,
      pad.0,
      rw zero_count (
          rw counted at (bitmap_loop-bytes n n 0 w tail (omega arith))
          ∙ rest_of_block m (length bytes) pad.0 (w ++ bytes) (omega arith) pad.1),
      omega (arith, pad.2),
      bitmap-LeadingBits n n (omega arith),
    )
