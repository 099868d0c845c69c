-- ===== src/Ext2/Layout.antt =====
-- The structures of programs/e2.c as the bytes that are written for them, in the order of their fields, with
-- the values that format_ext gives them. The numbers are little-endian.
use punchcardos.Prelude.{ℕ, zero, suc, ◌+◌, ◌-◌, ◌*◌, ◌/◌, ◌%◌, ◌^◌, [], ◌∷◌, ◌++◌, Bytes}

-- A number of so many bytes.
unfoldable pub le : ℕ → ℕ → Bytes
le zero n = []
le (suc w) n = n % 256 ∷ le w (n / 256)

unfoldable pub zeros : ℕ → Bytes
zeros zero = []
zeros (suc n) = 0 ∷ zeros n

abbrev u16 : ℕ → Bytes
u16 n = le 2 n

abbrev u32 : ℕ → Bytes
u32 n = le 4 n

-- EXT2_BLOCK_SIZE
abbrev pub block_size : ℕ
block_size = 1_024

-- INODES_PER_GROUP, BLOCKS_PER_GROUP and FRAGS_PER_GROUP, INODE_SIZE
abbrev pub inodes_per_group : ℕ
inodes_per_group = 1_024

abbrev pub blocks_per_group : ℕ
blocks_per_group = block_size * 8

abbrev pub inode_size : ℕ
inode_size = 128

-- BLOCKS_FOR_BLOCK_BITMAP, BLOCKS_FOR_INODE_BITMAP and BLOCKS_FOR_INODE_TABLE
abbrev pub block_bitmap_blocks : ℕ
block_bitmap_blocks = blocks_per_group / 8 / block_size

abbrev pub inode_bitmap_blocks : ℕ
inode_bitmap_blocks = inodes_per_group / 8 / block_size

abbrev pub inode_table_blocks : ℕ
inode_table_blocks = inodes_per_group * inode_size / block_size

-- The fields of the group descriptor that are blocks.
abbrev pub bg_block_bitmap : ℕ
bg_block_bitmap = 3

abbrev pub bg_inode_bitmap : ℕ
bg_inode_bitmap = bg_block_bitmap + block_bitmap_blocks

abbrev pub bg_inode_table : ℕ
bg_inode_table = bg_inode_bitmap + inode_bitmap_blocks

abbrev pub free_blocks : ℕ
free_blocks = blocks_per_group - (block_bitmap_blocks + inode_bitmap_blocks + inode_table_blocks)

abbrev pub free_inodes : ℕ
free_inodes = inodes_per_group - 1

-- s_inodes_count to s_block_group_nr; all fields behind that are 0.
unfoldable pub super_block : Bytes
unfolding le zeros
super_block =
    u32 inodes_per_group
    ++ u32 blocks_per_group
    ++ u32 0
    ++ u32 free_blocks
    ++ u32 free_inodes
    ++ u32 1
    ++ u32 0
    ++ u32 0
    ++ u32 blocks_per_group
    ++ u32 blocks_per_group
    ++ u32 inodes_per_group
    ++ u32 0
    ++ u32 0
    ++ u16 0
    ++ u16 1_000
    ++ u16 0xEF53
    ++ u16 1
    ++ u16 1
    ++ u16 0
    ++ u32 0
    ++ u32 (2 ^ 32 - 1)
    ++ u32 0
    ++ u32 0
    ++ u16 0
    ++ u16 0
    ++ u32 0
    ++ u16 0
    ++ u16 1
    ++ zeros 932

-- bg_block_bitmap to bg_used_dirs_count, and the fields behind that are 0.
unfoldable pub group_desc : Bytes
unfolding le zeros
group_desc =
    u32 bg_block_bitmap
    ++ u32 bg_inode_bitmap
    ++ u32 bg_inode_table
    ++ u16 free_blocks
    ++ u16 free_inodes
    ++ u16 1
    ++ zeros 14

unfoldable pub empty_inode : Bytes
unfolding zeros
empty_inode = zeros 128

-- i_mode, i_uid, i_size, i_atime, i_ctime, i_mtime, i_dtime, i_gid, i_links_count, i_blocks, i_flags,
-- osd1, i_block[0]; the fields behind that are 0.
unfoldable pub root_inode : Bytes
unfolding le zeros
root_inode =
    u16 0o40755
    ++ u16 0
    ++ u32 0
    ++ u32 0
    ++ u32 1
    ++ u32 0
    ++ u32 0
    ++ u16 0
    ++ u16 1
    ++ u32 1
    ++ u32 0
    ++ u32 0
    ++ u32 (bg_inode_table + inode_table_blocks)
    ++ zeros 84

-- leading_bits_to_set, with one group
abbrev pub leading_bits : ℕ
leading_bits = 1 + 1 + (block_bitmap_blocks + inode_bitmap_blocks + inode_table_blocks) + 1
