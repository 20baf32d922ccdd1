-- ===== src/Format.antt =====
-- squashfs-tools/squashfs_fs.h: how numbers are packed into the words on disk. `x >> k` is
-- `x / 2 ^ k` and `x & (2 ^ k - 1)` is `x % 2 ^ k`; fields that do not overlap are joined by `+`.
pub mod Laws
pub mod Fields
mod Tests
use squashfs_tools.Common.{ℕ, ◌+◌, ◌-◌, ◌*◌, ◌/◌, ◌%◌, ◌^◌, Bool, not, if◌then◌else◌, ◌==◌}

-- SQUASHFS_METADATA_SIZE.
abbrev pub metadata_size : ℕ
metadata_size = 8192

-- SQUASHFS_BIT.
abbrev pub flag_bit : ℕ → ℕ → ℕ
flag_bit flag bit = flag / 2 ^ bit % 2

-- The arguments of SQUASHFS_MKFLAGS.
pub record Flags : Type 0 where
  pub noi : ℕ
  pub nod : ℕ
  pub nof : ℕ
  pub nox : ℕ
  pub noid : ℕ
  pub no_frag : ℕ
  pub always_frag : ℕ
  pub duplicate_checking : ℕ
  pub exportable : ℕ
  pub no_xattr : ℕ
  pub comp_opt : ℕ

-- SQUASHFS_MKFLAGS.
unfoldable pub make_flags : Flags → ℕ
make_flags f =
    f.noi
    + f.nod * 2 ^ 1
    + f.nof * 2 ^ 3
    + f.no_frag * 2 ^ 4
    + f.always_frag * 2 ^ 5
    + f.duplicate_checking * 2 ^ 6
    + f.exportable * 2 ^ 7
    + f.nox * 2 ^ 8
    + f.no_xattr * 2 ^ 9
    + f.comp_opt * 2 ^ 10
    + f.noid * 2 ^ 11

-- The macros that read the flags, from SQUASHFS_UNCOMPRESSED_INODES to SQUASHFS_UNCOMPRESSED_IDS.
unfoldable pub read_flags : ℕ → Flags
read_flags flags = record {
  noi = flag_bit flags 0;
  nod = flag_bit flags 1;
  nof = flag_bit flags 3;
  nox = flag_bit flags 8;
  noid = flag_bit flags 11;
  no_frag = flag_bit flags 4;
  always_frag = flag_bit flags 5;
  duplicate_checking = flag_bit flags 6;
  exportable = flag_bit flags 7;
  no_xattr = flag_bit flags 9;
  comp_opt = flag_bit flags 10;
}

-- The 16-bit size word of a metadata block: SQUASHFS_COMPRESSED_BIT is bit 15.
abbrev pub compressed_bit : ℕ
compressed_bit = 2 ^ 15

-- B & ~SQUASHFS_COMPRESSED_BIT, for B below 2 ^ 16.
abbrev pub without_bit : ℕ → ℕ
without_bit b = b % 2 ^ 15

unfoldable pub compressed_size : ℕ → ℕ
compressed_size b = if without_bit b == 0 then compressed_bit else without_bit b

unfoldable pub is_compressed : ℕ → Bool
is_compressed b = b / 2 ^ 15 % 2 == 0

-- The 32-bit size word of a data block: SQUASHFS_COMPRESSED_BIT_BLOCK is bit 24.
unfoldable pub compressed_size_block : ℕ → ℕ
compressed_size_block b = b / 2 ^ 25 * 2 ^ 25 + b % 2 ^ 24

unfoldable pub is_compressed_block : ℕ → Bool
is_compressed_block b = b / 2 ^ 24 % 2 == 0

-- SQUASHFS_INODE_BLK, SQUASHFS_INODE_OFFSET, SQUASHFS_MKINODE.
unfoldable pub inode_blk : ℕ → ℕ
inode_blk a = a / 2 ^ 16 % 2 ^ 32

unfoldable pub inode_offset : ℕ → ℕ
inode_offset a = a % 2 ^ 16

unfoldable pub make_inode : ℕ → ℕ → ℕ
make_inode a b = a * 2 ^ 16 + b

-- The tables of fragments, inodes, ids and extended attributes: `a` entries of `size` bytes each,
-- in metadata blocks. SQUASHFS_FRAGMENT_BYTES and so on:
abbrev pub table_bytes : ℕ → ℕ → ℕ
table_bytes size a = a * size

-- SQUASHFS_FRAGMENT_INDEX, SQUASHFS_LOOKUP_BLOCK, SQUASHFS_ID_BLOCK, SQUASHFS_XATTR_BLOCK.
unfoldable pub table_block : ℕ → ℕ → ℕ
table_block size a = table_bytes size a / metadata_size

-- SQUASHFS_FRAGMENT_INDEX_OFFSET and so on.
unfoldable pub table_block_offset : ℕ → ℕ → ℕ
table_block_offset size a = table_bytes size a % metadata_size

-- SQUASHFS_FRAGMENT_INDEXES and so on.
unfoldable pub table_blocks : ℕ → ℕ → ℕ
table_blocks size a = (table_bytes size a + metadata_size - 1) / metadata_size

-- The sizes of the entries: struct squashfs_fragment_entry, squashfs_inode, unsigned int, struct
-- squashfs_xattr_id.
abbrev pub fragment_entry_size : ℕ
fragment_entry_size = 16

abbrev pub inode_size : ℕ
inode_size = 8

abbrev pub id_size : ℕ
id_size = 4

abbrev pub xattr_id_size : ℕ
xattr_id_size = 16
