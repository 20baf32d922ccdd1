-- ===== src/Tables/Super.antt =====
-- struct squashfs_super_block of squashfs-tools/squashfs_fs.h as it stands on disk, by the macros of
-- squashfs_swap.h, and read_super_4 of unsquash-4.c.
use squashfs_tools.Common.{
  ℕ, ◌-◌, ◌^◌, ◌<◌, ◌≡◌, refl, Bool, Option, none, some, List, ◌++◌, length, ◌==◌, ◌&&◌,
  if◌then◌else◌,
}
use squashfs_tools.Format.Fields.{
  field, short_at, int_at, long_at, number-short, number-int, number-long,
}
use squashfs_tools.Metadata.Reader.{Image, read_fs_bytes}

pub record Superblock : Type 0 where
  pub s_magic : ℕ
  pub inodes : ℕ
  pub mkfs_time : ℕ
  pub block_size : ℕ
  pub fragments : ℕ
  pub compression : ℕ
  pub block_log : ℕ
  pub flags : ℕ
  pub no_ids : ℕ
  pub s_major : ℕ
  pub s_minor : ℕ
  pub root_inode : ℕ
  pub bytes_used : ℕ
  pub id_table_start : ℕ
  pub xattr_id_table_start : ℕ
  pub inode_table_start : ℕ
  pub directory_table_start : ℕ
  pub fragment_table_start : ℕ
  pub lookup_table_start : ℕ

abbrev pub super_size : ℕ
super_size = 96

-- SQUASHFS_MAGIC, and SQUASHFS_INVALID_BLK, -1 as a number of 64 bits.
abbrev pub squashfs_magic : ℕ
squashfs_magic = 1936814952

abbrev pub invalid_blk : ℕ
invalid_blk = 2 ^ 64 - 1

-- SQUASHFS_INSWAP_SUPER_BLOCK for the disk.
abbrev pub super_bytes : Superblock → List ℕ
super_bytes s =
    field 4 s.s_magic
    ++ (field 4 s.inodes
        ++ (field 4 s.mkfs_time
            ++ (field 4 s.block_size
                ++ (field 4 s.fragments
                    ++ (field 2 s.compression
                        ++ (field 2 s.block_log
                            ++ (field 2 s.flags
                                ++ (field 2 s.no_ids
                                    ++ (field 2 s.s_major
                                        ++ (field 2 s.s_minor
                                            ++ (field 8 s.root_inode
                                                ++ (field 8 s.bytes_used
                                                    ++ (field 8 s.id_table_start
                                                        ++ (field 8 s.xattr_id_table_start
                                                            ++ (field 8 s.inode_table_start
                                                            ++ (field 8 s.directory_table_start
                                                            ++ (field 8 s.fragment_table_start
                                                            ++ field 8
                                                            s.lookup_table_start)))))))))))))))))

-- The same from the disk.
abbrev pub super_of : List ℕ → Superblock
super_of b = record {
  s_magic = int_at 0 b;
  inodes = int_at 4 b;
  mkfs_time = int_at 8 b;
  block_size = int_at 12 b;
  fragments = int_at 16 b;
  compression = short_at 20 b;
  block_log = short_at 22 b;
  flags = short_at 24 b;
  no_ids = short_at 26 b;
  s_major = short_at 28 b;
  s_minor = short_at 30 b;
  root_inode = long_at 32 b;
  bytes_used = long_at 40 b;
  id_table_start = long_at 48 b;
  xattr_id_table_start = long_at 56 b;
  inode_table_start = long_at 64 b;
  directory_table_start = long_at 72 b;
  fragment_table_start = long_at 80 b;
  lookup_table_start = long_at 88 b;
}

-- What read_super_4 returns: FALSE, -1 for an image of another version, TRUE with sBlk.
pub data Super : Type 0 where
  unreadable : Super
  other_version : Super
  version_4 : Superblock → Super

abbrev pub is_version_4 : Superblock → Bool
is_version_4 s = s.s_magic == squashfs_magic && (s.s_major == 4 && s.s_minor == 0)

abbrev pub check_super : Option (List ℕ) → Super
check_super none = unreadable
check_super (some b) = if is_version_4 (super_of b) then version_4 (super_of b) else other_version

-- read_super_4. Left out are the search for the compressor, and the flag `swap`, which is 0 for an image
-- that is taken on a machine with the lowest byte first (Image has it as a field).
unfoldable pub read_super_4 : Image → Super
read_super_4 image = check_super (read_fs_bytes image 0 super_size)

-- Each field has a number that it can hold.
pub record IsSuper (s : Superblock) : Type 0 where
  pub s_magic : s.s_magic < 2 ^ 32
  pub inodes : s.inodes < 2 ^ 32
  pub mkfs_time : s.mkfs_time < 2 ^ 32
  pub block_size : s.block_size < 2 ^ 32
  pub fragments : s.fragments < 2 ^ 32
  pub compression : s.compression < 2 ^ 16
  pub block_log : s.block_log < 2 ^ 16
  pub flags : s.flags < 2 ^ 16
  pub no_ids : s.no_ids < 2 ^ 16
  pub s_major : s.s_major < 2 ^ 16
  pub s_minor : s.s_minor < 2 ^ 16
  pub root_inode : s.root_inode < 2 ^ 64
  pub bytes_used : s.bytes_used < 2 ^ 64
  pub id_table_start : s.id_table_start < 2 ^ 64
  pub xattr_id_table_start : s.xattr_id_table_start < 2 ^ 64
  pub inode_table_start : s.inode_table_start < 2 ^ 64
  pub directory_table_start : s.directory_table_start < 2 ^ 64
  pub fragment_table_start : s.fragment_table_start < 2 ^ 64
  pub lookup_table_start : s.lookup_table_start < 2 ^ 64

pub super_of-super_bytes : (s : Superblock) → IsSuper s → super_of (super_bytes s) ≡ s
super_of-super_bytes s h =
    rw
      (
        number-int s.s_magic h.s_magic,
        number-int s.inodes h.inodes,
        number-int s.mkfs_time h.mkfs_time,
        number-int s.block_size h.block_size,
        number-int s.fragments h.fragments,
        number-short s.compression h.compression,
        number-short s.block_log h.block_log,
        number-short s.flags h.flags,
        number-short s.no_ids h.no_ids,
        number-short s.s_major h.s_major,
        number-short s.s_minor h.s_minor,
        number-long s.root_inode h.root_inode,
        number-long s.bytes_used h.bytes_used,
        number-long s.id_table_start h.id_table_start,
        number-long s.xattr_id_table_start h.xattr_id_table_start,
        number-long s.inode_table_start h.inode_table_start,
        number-long s.directory_table_start h.directory_table_start,
        number-long s.fragment_table_start h.fragment_table_start,
        number-long s.lookup_table_start h.lookup_table_start,
      )
      refl

pub length-super_bytes : (s : Superblock) → length (super_bytes s) ≡ super_size
length-super_bytes s = refl
