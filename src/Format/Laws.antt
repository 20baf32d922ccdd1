-- ===== src/Format/Laws.antt =====
-- What is packed is read back, and no table entry lies across two blocks.
use squashfs_tools.Common.{ℕ, ◌+◌, ◌*◌, ◌^◌, ◌≤◌, ◌<◌, ◌≡◌, ◌⊎◌, inl, inr, true, false, arith}
use squashfs_tools.Format.{
  Flags, make_flags, read_flags, flag_bit, compressed_bit, compressed_size, is_compressed,
  compressed_size_block, is_compressed_block, inode_blk, inode_offset, make_inode, metadata_size,
  table_block, table_block_offset, table_blocks,
}

-- Each flag is 0 or 1.
pub record IsFlags (f : Flags) : Type 0 where
  pub noi : f.noi < 2
  pub nod : f.nod < 2
  pub nof : f.nof < 2
  pub nox : f.nox < 2
  pub noid : f.noid < 2
  pub no_frag : f.no_frag < 2
  pub always_frag : f.always_frag < 2
  pub duplicate_checking : f.duplicate_checking < 2
  pub exportable : f.exportable < 2
  pub no_xattr : f.no_xattr < 2
  pub comp_opt : f.comp_opt < 2

bit_noi : (f : Flags) → IsFlags f → flag_bit (make_flags f) 0 ≡ f.noi
unfolding make_flags
bit_noi f h = omega arith

bit_nod : (f : Flags) → IsFlags f → flag_bit (make_flags f) 1 ≡ f.nod
unfolding make_flags
bit_nod f h = omega arith

bit_nof : (f : Flags) → IsFlags f → flag_bit (make_flags f) 3 ≡ f.nof
unfolding make_flags
bit_nof f h = omega arith

bit_nox : (f : Flags) → IsFlags f → flag_bit (make_flags f) 8 ≡ f.nox
unfolding make_flags
bit_nox f h = omega arith

bit_noid : (f : Flags) → IsFlags f → flag_bit (make_flags f) 11 ≡ f.noid
unfolding make_flags
bit_noid f h = omega arith

bit_no_frag : (f : Flags) → IsFlags f → flag_bit (make_flags f) 4 ≡ f.no_frag
unfolding make_flags
bit_no_frag f h = omega arith

bit_always_frag : (f : Flags) → IsFlags f → flag_bit (make_flags f) 5 ≡ f.always_frag
unfolding make_flags
bit_always_frag f h = omega arith

bit_duplicate_checking : (f : Flags) → IsFlags f → flag_bit (make_flags f) 6 ≡ f.duplicate_checking
unfolding make_flags
bit_duplicate_checking f h = omega arith

bit_exportable : (f : Flags) → IsFlags f → flag_bit (make_flags f) 7 ≡ f.exportable
unfolding make_flags
bit_exportable f h = omega arith

bit_no_xattr : (f : Flags) → IsFlags f → flag_bit (make_flags f) 9 ≡ f.no_xattr
unfolding make_flags
bit_no_xattr f h = omega arith

bit_comp_opt : (f : Flags) → IsFlags f → flag_bit (make_flags f) 10 ≡ f.comp_opt
unfolding make_flags
bit_comp_opt f h = omega arith

-- The flags that are read are those that were packed.
pub read_flags-make_flags : (f : Flags) → IsFlags f → read_flags (make_flags f) ≡ f
unfolding read_flags
read_flags-make_flags f h i = record {
  noi = bit_noi f h i;
  nod = bit_nod f h i;
  nof = bit_nof f h i;
  nox = bit_nox f h i;
  noid = bit_noid f h i;
  no_frag = bit_no_frag f h i;
  always_frag = bit_always_frag f h i;
  duplicate_checking = bit_duplicate_checking f h i;
  exportable = bit_exportable f h i;
  no_xattr = bit_no_xattr f h i;
  comp_opt = bit_comp_opt f h i;
}

-- The size word of a metadata block of 1 to 2 ^ 15 - 1 bytes says its size, stored compressed or
-- as it is, and which.
pub size_word :
    (size : ℕ)
    → 0 < size
    → size < compressed_bit
    → (is_compressed size ≡ true)
      × (compressed_size size ≡ size)
      × (is_compressed (size + compressed_bit) ≡ false)
      × (compressed_size (size + compressed_bit) ≡ size)
unfolding is_compressed compressed_size
size_word size lo hi = (ground arith, ground arith, ground arith, ground arith)

-- So does that of a data block, which takes 0 as well.
pub block_size_word :
    (size : ℕ)
    → size < 2 ^ 24
    → (is_compressed_block size ≡ true)
      × (compressed_size_block size ≡ size)
      × (is_compressed_block (size + 2 ^ 24) ≡ false)
      × (compressed_size_block (size + 2 ^ 24) ≡ size)
unfolding is_compressed_block compressed_size_block
block_size_word size h = (ground arith, omega arith, ground arith, omega arith)

-- An inode reference holds the block and the offset that it is made of.
pub inode_parts :
    (block offset : ℕ)
    → block < 2 ^ 32
    → offset < 2 ^ 16
    → (inode_blk (make_inode block offset) ≡ block)
      × (inode_offset (make_inode block offset) ≡ offset)
      × (make_inode block offset < 2 ^ 48)
unfolding inode_blk inode_offset make_inode
inode_parts block offset hb ho = omega arith

-- An entry of 4, 8 or 16 bytes of a table with more entries than its number lies within one
-- metadata block, at the place that its number says, and the block is one of those that the table
-- has.
pub table_entry :
    (size a count : ℕ)
    → ((size ≡ 4) ⊎ (size ≡ 8)) ⊎ (size ≡ 16)
    → a < count
    → (table_block size a * metadata_size + table_block_offset size a ≡ a * size)
      × (table_block_offset size a + size ≤ metadata_size)
      × (table_block size a < table_blocks size count)
unfolding table_block table_block_offset table_blocks
table_entry size a count (inl (inl four)) h = rw four (omega arith)
table_entry size a count (inl (inr eight)) h = rw eight (omega arith)
table_entry size a count (inr sixteen) h = rw sixteen (omega arith)
