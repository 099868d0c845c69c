-- ===== src/Ext2/Fields.antt =====
-- What a reader finds in the image of programs/e2.c, by the places of the fields in the ext2 format.
use punchcardos.Ext2.Bitmap.{LeadingBits}
use punchcardos.Ext2.Layout.{super_block, group_desc, root_inode, zeros}
use punchcardos.Prelude.{
  ℕ, zero, suc, ◌+◌, ◌*◌, ◌≡◌, refl, [], ◌∷◌, ◌++◌, Bytes, length, take, drop,
}

-- A little-endian number, and the one of so many bytes at a place.
abbrev pub number : Bytes → ℕ
number [] = 0
number (b ∷ bytes) = b + 256 * number bytes

abbrev pub number_at : ℕ → ℕ → Bytes → ℕ
number_at size place bytes = number (take size (drop place bytes))

abbrev pub copies : ℕ → Bytes → Bytes
copies zero bytes = []
copies (suc n) bytes = bytes ++ copies n bytes

pub record IsSuperBlock (bytes : Bytes) : Type 0 where
  pub inodes : number_at 4 0 bytes ≡ 1_024
  pub blocks : number_at 4 4 bytes ≡ 8_192
  pub free_blocks : number_at 4 12 bytes ≡ 8_063
  pub free_inodes : number_at 4 16 bytes ≡ 1_023
  pub first_data_block : number_at 4 20 bytes ≡ 1
  pub log_block_size : number_at 4 24 bytes ≡ 0
  pub blocks_per_group : number_at 4 32 bytes ≡ 8_192
  pub inodes_per_group : number_at 4 40 bytes ≡ 1_024
  pub magic : number_at 2 56 bytes ≡ 0xEF53
  pub state : number_at 2 58 bytes ≡ 1
  pub revision : number_at 4 76 bytes ≡ 0

pub record IsGroupDesc (bytes : Bytes) : Type 0 where
  pub block_bitmap : number_at 4 0 bytes ≡ 3
  pub inode_bitmap : number_at 4 4 bytes ≡ 4
  pub inode_table : number_at 4 8 bytes ≡ 4
  pub free_blocks : number_at 2 12 bytes ≡ 8_063
  pub free_inodes : number_at 2 14 bytes ≡ 1_023
  pub used_dirs : number_at 2 16 bytes ≡ 1

-- A directory of the user and group 0, with all rights for the user, without content but with a block.
pub record IsRootInode (bytes : Bytes) : Type 0 where
  pub mode : number_at 2 0 bytes ≡ 0x4000 + 0x1ED
  pub user : number_at 2 2 bytes ≡ 0
  pub size : number_at 4 4 bytes ≡ 0
  pub group : number_at 2 24 bytes ≡ 0
  pub links : number_at 2 26 bytes ≡ 1
  pub blocks : number_at 4 28 bytes ≡ 1
  pub first_block : number_at 4 40 bytes ≡ 132

-- The image from the offset 1024 on.
pub record IsImage (image : Bytes) : Type 0 where
  pub has_super_block : IsSuperBlock image
  pub has_group_desc : IsGroupDesc (drop 1_024 image)
  pub bitmap : Bytes
  pub bitmap_rest : Bytes
  pub block_bitmap : drop 2_048 image ≡ bitmap ++ bitmap_rest
  pub used_blocks : LeadingBits 132 bitmap
  pub inode_rest : Bytes
  pub inode_bitmap : drop 3_072 image ≡ 0xFF ∷ 0x07 ∷ inode_rest
  pub first_inode : take 128 (drop 4_097 image) ≡ zeros 128
  pub has_root_inode : IsRootInode (drop 4_225 image)
  pub other_inodes : drop 4_353 image ≡ copies 1_022 (zeros 128)
  pub size : length image ≡ 135_169

pub super_block-IsSuperBlock : (rest : Bytes) → IsSuperBlock (super_block ++ rest)
unfolding super_block
super_block-IsSuperBlock rest = record {
  inodes = refl;
  blocks = refl;
  free_blocks = refl;
  free_inodes = refl;
  first_data_block = refl;
  log_block_size = refl;
  blocks_per_group = refl;
  inodes_per_group = refl;
  magic = refl;
  state = refl;
  revision = refl;
}

pub group_desc-IsGroupDesc : (rest : Bytes) → IsGroupDesc (group_desc ++ rest)
unfolding group_desc
group_desc-IsGroupDesc rest = record {
  block_bitmap = refl;
  inode_bitmap = refl;
  inode_table = refl;
  free_blocks = refl;
  free_inodes = refl;
  used_dirs = refl;
}

pub root_inode-IsRootInode : (rest : Bytes) → IsRootInode (root_inode ++ rest)
unfolding root_inode
root_inode-IsRootInode rest = record {
  mode = refl;
  user = refl;
  size = refl;
  group = refl;
  links = refl;
  blocks = refl;
  first_block = refl;
}
