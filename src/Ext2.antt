-- ===== src/Ext2.antt =====
-- programs/e2.c: formats a file as an ext2 partition with one block group.
mod Samples
pub mod Layout
pub mod Bitmap
pub mod Fields
pub mod Places
pub mod Image
use punchcardos.Ext2.Layout.{
  block_size, super_block, group_desc, empty_inode, root_inode, leading_bits,
}
use punchcardos.Prelude.{
  ℕ, zero, suc, ◌+◌, ◌-◌, ◌/◌, ◌%◌, ◌^◌, Bool, true, false, ◌||◌, List, [], ◌∷◌, ◌++◌, Bytes,
  Option, none, some, length, ltb, leb, ◌==◌, if◌then◌else◌,
}
use punchcardos.Sys.{Output, Written, count, eintr, error, write, exit_success, exit_failure}

-- What the program meets in memory: what malloc gives for a size, `none` for a null pointer, and what a
-- variable that is not initialised holds, as the number of 32 bits that it is stored as.
pub record Memory : Type 0 where
  pub malloc : ℕ → Option Bytes
  pub garbage : ℕ

-- A part of the program that writes: `none` when it has failed.
abbrev pub Result : Type 0
Result = Option ℕ × Output

-- write(…) < 0
on_written : Written → Output → (Output → Result) → Result
on_written (count n) o again = again o
on_written eintr o again = (none, o)
on_written error o again = (none, o)

unfoldable pub put : Bytes → Output → (Output → Result) → Result
unfolding on_written
put bytes o again = on_written (write bytes o).0 (write bytes o).1 again

-- write(…, 1) != 1
on_byte : Written → Output → (Output → Result) → Result
on_byte (count n) o again = elim (n == 1) [ true ↦ again o | false ↦ (none, o) ]
on_byte eintr o again = (none, o)
on_byte error o again = (none, o)

unfoldable pub put_byte : ℕ → Output → (Output → Result) → Result
unfolding on_byte
put_byte b o again = on_byte (write (b ∷ []) o).0 (write (b ∷ []) o).1 again

-- An `int` is negative.
abbrev pub negative : ℕ → Bool
negative n = leb (2 ^ 31) n

-- malloc takes a negative size for one that is too large for the memory. What it gives is written as it is.
unfoldable pub write_padding : Memory → ℕ → Output → (Output → Result) → Result
unfolding put
write_padding m size o again = elim (negative size) [
  | true ↦ (none, o)
  | false ↦ elim (m.malloc size) [ none ↦ (none, o) | some padbuf ↦ put padbuf o again ]
]

-- while (leading_set_bits > 8), in as many rounds as there are bits: the last byte is written behind it.
-- `written` is the variable bitmap_bytes_written.
unfoldable pub bitmap_loop : ℕ → ℕ → ℕ → Output → (ℕ → ℕ → Output → Result) → Result
unfolding put_byte
bitmap_loop zero leading_set_bits written o after = after leading_set_bits written o
bitmap_loop (suc f) leading_set_bits written o after = elim (ltb 8 leading_set_bits) [
  | true ↦
      put_byte 0xFF o (λ o'. bitmap_loop f (leading_set_bits - 8) ((written + 1) % 2 ^ 32) o' after)
  | false ↦ after leading_set_bits written o
]

-- 0xFF >> (8 - (char)leading_set_bits)
abbrev pub rembits : ℕ → ℕ
rembits leading_set_bits = 0xFF / 2 ^ (8 - leading_set_bits)

-- The result is bitmap_bytes_written, and 0 on a failure.
unfoldable pub write_bitmap : Memory → ℕ → Output → Result
unfolding bitmap_loop put_byte write_padding
write_bitmap m leading_set_bits o =
    bitmap_loop leading_set_bits leading_set_bits m.garbage o (λ bits written o1.
      put_byte (rembits bits) o1 (λ o2.
        let total = (written + 1) % 2 ^ 32 in
        write_padding m ((block_size + (2 ^ 32 - total)) % 2 ^ 32) o2 (λ o3. (some total, o3))))

-- write_bitmap(…) <= 0
unfoldable pub bitmap_failed : ℕ → Bool
bitmap_failed written = written == 0 || negative written

-- for (int i = 2; i < INODES_PER_GROUP; i++), for the rounds that are left.
unfoldable pub empty_inodes : ℕ → Output → Result
unfolding put
empty_inodes zero o = (some exit_success, o)
empty_inodes (suc n) o = put empty_inode o (λ o'. empty_inodes n o')

write_inodes : Memory → Output → Result
write_inodes m o = put_byte 0xFF o (λ o1. put_byte 0x07 o1 (λ o2.
    write_padding m (block_size - 1) o2
      (λ o3. put empty_inode o3 (λ o4. put root_inode o4 (λ o5. empty_inodes 1_022 o5)))))

after_bitmap : Memory → Result → Result
unfolding write_inodes bitmap_failed
after_bitmap m (none, o) = (none, o)
after_bitmap m (some written, o) = elim (bitmap_failed written) [
  | true ↦ (none, o)
  | false ↦ write_inodes m o
]

-- format_ext from the first write on.
unfoldable pub write_image : Memory → Output → Result
unfolding after_bitmap
write_image m o = put super_block o (λ o1. put group_desc o1 (λ o2.
    write_padding m (block_size - 32) o2 (λ o3. after_bitmap m (write_bitmap m leading_bits o3))))

finished : Result → ℕ × Output
finished (none, o) = (exit_failure, o)
finished (some status, o) = (status, o)

-- `sought` tells whether lseek has set the offset 1024. The output is what is written from there on.
format_ext : Memory → Bool → Output → ℕ × Output
unfolding write_image finished
format_ext m sought o = elim sought [
  | true ↦ finished (write_image m o)
  | false ↦ (exit_failure, o)
]

-- `opened` tells whether open has given a descriptor.
unfoldable pub main : Memory → Bool → Bool → Output → ℕ × Output
unfolding format_ext
main m opened sought o = elim opened [ true ↦ format_ext m sought o | false ↦ (exit_failure, o) ]
