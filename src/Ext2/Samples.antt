-- ===== src/Ext2/Samples.antt =====
-- A run of programs/e2.c with a malloc whose memory is zero.
use punchcardos.Ext2.Layout.{root_inode, zeros}
use punchcardos.Ext2.{Memory}
use punchcardos.Prelude.{◌≡◌, refl, [], ◌∷◌, some, take}

abbrev zero_memory : Memory
zero_memory = record { malloc = λ size. some (zeros size); garbage = 0 }

-- The mode of the root directory.
root_mode : take 2 root_inode ≡ 0xED ∷ 0x41 ∷ []
unfolding root_inode
root_mode = refl
