-- ===== src/Tables/Filesystem.antt =====
-- The tables of an image as a whole: write_inode_lookup_table and write_filesystem_tables of
-- squashfs-tools/mksquashfs.c, read_filesystem_tables of unsquash-4.c.
use squashfs_tools.Common.{
  ℕ, ◌+◌, ◌-◌, ◌*◌, ◌%◌, ◌^◌, Bool, not, ◌&&◌, ◌||◌, Option, none, some, List, [], ◌∷◌, ◌++◌,
  length, drop, take, set, ◌==◌, ltb, if◌then◌else◌, ◌>>=◌,
}
use squashfs_tools.Format.{inode_size, metadata_size}
use squashfs_tools.Metadata.{Compressor, Writer, write_table}
use squashfs_tools.Metadata.Reader.{Image}
use squashfs_tools.Tables.{
  longs, generic_write_table, write_id_table, write_fragment_table, Fragment,
}
use squashfs_tools.Tables.Ids.{Ids, ids_of}
use squashfs_tools.Tables.Load.{read_id_table, read_fragment_table, parse_exports_table}
use squashfs_tools.Tables.Super.{Superblock, super_size, super_bytes, invalid_blk}

-- What write_inode_lookup_table needs of struct inode_info: get_inode_no, and the inode.
pub record InodeInfo : Type 0 where
  pub inode_number : ℕ
  pub inode : ℕ

-- The loop over inode_info, whose lists stand one behind the other; an inode without a number is
-- left out.
unfoldable pub set_inodes : List InodeInfo → List ℕ → List ℕ
set_inodes [] table = table
set_inodes (i ∷ infos) table =
    set_inodes infos (if i.inode_number == 0 then table else set table (i.inode_number - 1) i.inode)

-- The tables in memory, and the options. `inode_lookup_table` has what realloc left in it, and as many
-- entries as there are inodes.
pub record Tables : Type 0 where
  pub inodes : Writer
  pub directories : Writer
  pub fragments : List Fragment
  pub inode_info : List InodeInfo
  pub inode_lookup_table : List ℕ
  pub sinode_count : ℕ
  pub ids : Ids
  pub exportable : Bool
  pub no_i : Bool
  pub no_f : Bool
  pub no_id : Bool

-- write_inode_lookup_table. lookup_bytes is an int: where it is negative, realloc or else the malloc of
-- generic_write_table fails, but for a table that is not grown, and so few bytes below 0 that the number
-- of blocks is 0. From 2 ^ 29 inodes on, bytes that do not fit are set nowhere here, and outside the table
-- in the source.
unfoldable pub write_inode_lookup_table : Compressor → Tables → List ℕ → Option (ℕ × List ℕ)
write_inode_lookup_table c t image =
    let lookup_bytes = length t.inode_lookup_table * inode_size % 2 ^ 32 in
    let old = length t.inode_lookup_table == t.sinode_count in
    let table =
      if old then t.inode_lookup_table else set_inodes t.inode_info t.inode_lookup_table in
    if ltb lookup_bytes (2 ^ 31)
    then generic_write_table c t.no_i (take lookup_bytes (longs table)) [] image
    else (if old && ltb (2 ^ 32) (lookup_bytes + 2 * metadata_size - 1)
        then generic_write_table c t.no_i [] [] image
        else none)

-- write_filesystem_tables, up to the superblock that goes to the image's front; write_xattrs is a
-- parameter, and gives SQUASHFS_INVALID_BLK and leaves the image alone where there are no attributes.
unfoldable pub write_filesystem_tables :
    Compressor
    → (List ℕ → Option (ℕ × List ℕ))
    → ℕ
    → Tables
    → Superblock
    → List ℕ
    → Option (Superblock × List ℕ)
write_filesystem_tables c write_xattrs compression t s image = do
  inode_table ← write_table c t.no_i t.inodes
  directory_table ← write_table c t.no_i t.directories
  (fragment_table_start, image3) ←
      write_fragment_table c t.no_f t.fragments ((image ++ inode_table) ++ directory_table)
  (lookup_table_start, image4) ←
      (if t.exportable then write_inode_lookup_table c t image3 else some (invalid_blk, image3))
  (id_table_start, image5) ← write_id_table c (t.no_i || t.no_id) (ids_of t.ids.id_table) image4
  (xattr_id_table_start, image6) ← write_xattrs image5
  let s' = record s {
    fragments = length t.fragments % 2 ^ 32;
    no_ids = length t.ids.id_table % 2 ^ 16;
    inode_table_start = length image;
    directory_table_start = length (image ++ inode_table);
    fragment_table_start = fragment_table_start;
    lookup_table_start = lookup_table_start;
    id_table_start = id_table_start;
    xattr_id_table_start = xattr_id_table_start;
    bytes_used = length image6;
    compression = compression;
  }
  some (s', super_bytes s' ++ drop super_size image6)

-- `a < b` on long longs.
abbrev pub less : ℕ → ℕ → Bool
less a b = ltb ((a + 2 ^ 63) % 2 ^ 64) ((b + 2 ^ 63) % 2 ^ 64)

-- id_table and fragment_table.
pub record Loaded : Type 0 where
  pub id_table : List ℕ
  pub fragment_table : List Fragment

-- The steps of read_filesystem_tables: where the table before starts; `none` is corrupted.
abbrev pub pass_xattrs : (Superblock → Option ℕ) → Superblock → Option ℕ
pass_xattrs read_xattrs s =
    if s.xattr_id_table_start == invalid_blk
    then some s.bytes_used
    else (if less s.xattr_id_table_start s.bytes_used then read_xattrs s else none)

abbrev pub pass_ids : Compressor → Image → Superblock → ℕ → Option (List ℕ × ℕ)
pass_ids c image s table_start =
    if not (less s.id_table_start table_start)
    then none
    else (if s.no_ids == 0
        then none
        else (if ltb (s.inodes * 2) s.no_ids
            then none
            else read_id_table c image s.no_ids s.id_table_start table_start))

abbrev pub pass_exports : Image → Superblock → ℕ → Option ℕ
pass_exports image s table_start =
    if s.lookup_table_start == invalid_blk
    then some table_start
    else (if less s.lookup_table_start table_start
        then parse_exports_table image s.inodes s.lookup_table_start table_start
        else none)

abbrev pub pass_fragments : Compressor → Image → Superblock → ℕ → Option (List Fragment × ℕ)
pass_fragments c image s table_start =
    if s.fragments == 0
    then some ([], table_start)
    else (if not (less s.fragment_table_start table_start)
        then none
        else (if ltb s.inodes s.fragments
            then none
            else read_fragment_table c image s.fragments s.fragment_table_start table_start))

-- read_filesystem_tables; read_xattrs_from_disk is a parameter.
unfoldable pub read_filesystem_tables :
    Compressor → Image → (Superblock → Option ℕ) → Superblock → Option Loaded
read_filesystem_tables c image read_xattrs s = do
  xattrs_start ← pass_xattrs read_xattrs s
  (id_table, ids_start) ← pass_ids c image s xattrs_start
  exports_start ← pass_exports image s ids_start
  (fragment_table, fragments_start) ← pass_fragments c image s exports_start
  if less fragments_start s.directory_table_start
      then none
      else (if less s.inode_table_start s.directory_table_start
          then some (record { id_table = id_table; fragment_table = fragment_table })
          else none)
