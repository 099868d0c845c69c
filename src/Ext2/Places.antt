-- ===== src/Ext2/Places.antt =====
-- Where the parts of the image of programs/e2.c stand.
use punchcardos.Ext2.Bitmap.{LeadingBits}
use punchcardos.Ext2.Fields.{
  copies, IsImage, super_block-IsSuperBlock, group_desc-IsGroupDesc, root_inode-IsRootInode,
}
use punchcardos.Ext2.Layout.{super_block, group_desc, empty_inode, root_inode}
use punchcardos.Prelude.{
  ℕ, zero, suc, ◌+◌, ◌*◌, ◌≡◌, refl, sym, ap, ◌∙◌, ◌∷◌, ◌++◌, Bytes, length, take, drop, take_front,
  drop_front, append_assoc, length-append, arith,
}

unfoldable pub inode_table : Bytes
inode_table = empty_inode ++ (root_inode ++ copies 1_022 empty_inode)

length-super_block : length super_block ≡ 1_024
unfolding super_block
length-super_block = refl

length-group_desc : length group_desc ≡ 32
unfolding group_desc
length-group_desc = refl

length-empty_inode : length empty_inode ≡ 128
unfolding empty_inode
length-empty_inode = refl

length-root_inode : length root_inode ≡ 128
unfolding root_inode
length-root_inode = refl

length-copies : (n : ℕ) (bytes : Bytes) → length bytes ≡ 128 → length (copies n bytes) ≡ 128 * n
length-copies zero bytes h = refl
length-copies (suc n) bytes h =
    omega (arith, length-append bytes (copies n bytes), length-copies n bytes h, h)

-- An image of these parts, and what is in front of its inode table.
module _ (s g dp bits mp ip : Bytes) where
  abbrev before_table : Bytes
  before_table = (((s ++ g) ++ dp) ++ (bits ++ mp)) ++ (0xFF ∷ 0x07 ∷ ip)

  abbrev whole : Bytes → Bytes → Bytes → Bytes
  whole e r c = (((s ++ g) ++ dp) ++ (bits ++ mp)) ++ ((0xFF ∷ 0x07 ∷ ip) ++ (e ++ (r ++ c)))

-- Where the parts of an image stand.
module _ (s g dp bits mp ip e r c : Bytes) (size_s : length s ≡ 1_024) (size_g : length g ≡ 32)
    (size_dp : length dp ≡ 992) (size_bits : length bits + length mp ≡ 1_024)
    (size_ip : length ip ≡ 1_023) (size_e : length e ≡ 128) (size_r : length r ≡ 128) where
  super_at :
      (whole s g dp bits mp ip e r c)
      ≡ s ++ (g ++ (dp ++ ((bits ++ mp) ++ ((0xFF ∷ 0x07 ∷ ip) ++ (e ++ (r ++ c))))))
  super_at = simp append_assoc

  desc_at :
      drop 1_024 (whole s g dp bits mp ip e r c)
      ≡ g ++ (dp ++ ((bits ++ mp) ++ ((0xFF ∷ 0x07 ∷ ip) ++ (e ++ (r ++ c)))))
  desc_at =
      let tail = g ++ (dp ++ ((bits ++ mp) ++ ((0xFF ∷ 0x07 ∷ ip) ++ (e ++ (r ++ c))))) in
      let parts : (whole s g dp bits mp ip e r c) ≡ s ++ tail = simp append_assoc in
      ap (drop 1_024) parts ∙ drop_front 1_024 s tail size_s

  length-head : length ((s ++ g) ++ dp) ≡ 2_048
  length-head = omega (arith, length-append (s ++ g) dp, length-append s g, size_s, size_g, size_dp)

  bitmap_at :
      drop 2_048 (whole s g dp bits mp ip e r c)
      ≡ bits ++ (mp ++ ((0xFF ∷ 0x07 ∷ ip) ++ (e ++ (r ++ c))))
  bitmap_at =
      let tail = bits ++ (mp ++ ((0xFF ∷ 0x07 ∷ ip) ++ (e ++ (r ++ c)))) in
      let parts : (whole s g dp bits mp ip e r c) ≡ ((s ++ g) ++ dp) ++ tail = simp append_assoc in
      ap (drop 2_048) parts ∙ drop_front 2_048 ((s ++ g) ++ dp) tail length-head

  length-front : length (((s ++ g) ++ dp) ++ (bits ++ mp)) ≡ 3_072
  length-front = omega (
    arith,
    length-append ((s ++ g) ++ dp) (bits ++ mp),
    length-append bits mp,
    length-head,
    size_bits,
  )

  inode_bitmap_at :
      drop 3_072 (whole s g dp bits mp ip e r c) ≡ 0xFF ∷ 0x07 ∷ (ip ++ (e ++ (r ++ c)))
  inode_bitmap_at =
      drop_front 3_072 (((s ++ g) ++ dp) ++ (bits ++ mp)) ((0xFF ∷ 0x07 ∷ ip) ++ (e ++ (r ++ c)))
        length-front

  length-before_table : length (before_table s g dp bits mp ip) ≡ 4_097
  length-before_table = omega (
    arith,
    length-append (((s ++ g) ++ dp) ++ (bits ++ mp)) (0xFF ∷ 0x07 ∷ ip),
    length-front,
    size_ip,
  )

  table_parts :
      (whole s g dp bits mp ip e r c) ≡ (before_table s g dp bits mp ip) ++ (e ++ (r ++ c))
  table_parts =
      sym (append_assoc (((s ++ g) ++ dp) ++ (bits ++ mp)) (0xFF ∷ 0x07 ∷ ip) (e ++ (r ++ c)))

  first_inode_at : take 128 (drop 4_097 (whole s g dp bits mp ip e r c)) ≡ e
  first_inode_at =
      ap (λ t. take 128 (drop 4_097 t)) table_parts
      ∙ (ap (take 128)
            (drop_front 4_097 (before_table s g dp bits mp ip) (e ++ (r ++ c)) length-before_table)
          ∙ take_front 128 e (r ++ c) size_e)

  root_inode_at : drop 4_225 (whole s g dp bits mp ip e r c) ≡ r ++ c
  root_inode_at =
      ap (drop 4_225) (table_parts ∙ sym (append_assoc (before_table s g dp bits mp ip) e (r ++ c)))
      ∙ drop_front 4_225 ((before_table s g dp bits mp ip) ++ e) (r ++ c) (
          omega
            (arith, length-append (before_table s g dp bits mp ip) e, length-before_table, size_e))

  other_inodes_at : drop 4_353 (whole s g dp bits mp ip e r c) ≡ c
  other_inodes_at =
      ap (drop 4_353) (
        table_parts
        ∙ sym (append_assoc (before_table s g dp bits mp ip) e (r ++ c))
        ∙ sym (append_assoc ((before_table s g dp bits mp ip) ++ e) r c))
      ∙ drop_front 4_353 (((before_table s g dp bits mp ip) ++ e) ++ r) c (
          omega (
            arith,
            length-append ((before_table s g dp bits mp ip) ++ e) r,
            length-append (before_table s g dp bits mp ip) e,
            length-before_table,
            size_e,
            size_r,
          ))

  length-whole : length (whole s g dp bits mp ip e r c) ≡ 4_353 + length c
  length-whole =
      ap length table_parts
      ∙ omega (
        arith,
        length-append (before_table s g dp bits mp ip) (e ++ (r ++ c)),
        length-append e (r ++ c),
        length-append r c,
        length-before_table,
        size_e,
        size_r,
      )

pub parts-IsImage :
    (dp bits mp ip : Bytes)
    → length dp ≡ 992
    → length bits + length mp ≡ 1_024
    → length ip ≡ 1_023
    → LeadingBits 132 bits
    → IsImage (
        (((super_block ++ group_desc) ++ dp) ++ (bits ++ mp))
        ++ ((0xFF ∷ 0x07 ∷ ip) ++ inode_table))
unfolding inode_table empty_inode
parts-IsImage dp bits mp ip h1 h2 h3 used =
    let s = super_block in
    let g = group_desc in
    let e = empty_inode in
    let r = root_inode in
    let c = copies 1_022 empty_inode in
    let l1 = length-super_block in
    let l2 = length-group_desc in
    let l3 = length-empty_inode in
    let l4 = length-root_inode in
    record {
      has_super_block =
          rw (super_at s g dp bits mp ip e r c l1 l2 h1 h2 h3 l3 l4) (super_block-IsSuperBlock _);
      has_group_desc =
          rw (desc_at s g dp bits mp ip e r c l1 l2 h1 h2 h3 l3 l4) (group_desc-IsGroupDesc _);
      bitmap = bits;
      bitmap_rest = mp ++ ((0xFF ∷ 0x07 ∷ ip) ++ (e ++ (r ++ c)));
      block_bitmap = bitmap_at s g dp bits mp ip e r c l1 l2 h1 h2 h3 l3 l4;
      used_blocks = used;
      inode_rest = ip ++ (e ++ (r ++ c));
      inode_bitmap = inode_bitmap_at s g dp bits mp ip e r c l1 l2 h1 h2 h3 l3 l4;
      first_inode = first_inode_at s g dp bits mp ip e r c l1 l2 h1 h2 h3 l3 l4;
      has_root_inode =
          rw (root_inode_at s g dp bits mp ip e r c l1 l2 h1 h2 h3 l3 l4)
            (root_inode-IsRootInode c);
      other_inodes = other_inodes_at s g dp bits mp ip e r c l1 l2 h1 h2 h3 l3 l4;
      size =
          length-whole s g dp bits mp ip e r c l1 l2 h1 h2 h3 l3 l4
          ∙ omega (arith, length-copies 1_022 empty_inode, l3);
    }
