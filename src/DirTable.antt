-- ===== src/DirTable.antt =====
-- Directories on disk: how squashfs-tools/mksquashfs.c builds one (scan7_init_dir, add_dir) and puts
-- it into the directory table (write_dir). `buff` has the bytes from dir->buff up to dir->p; pointers
-- into it are offsets.
pub mod Opendir
pub mod Building
pub mod Adding
pub mod Laws
pub mod Image
pub mod Roundtrip
mod Tests
use Prim.Native.Nat.{min}
use squashfs_tools.Common.{
  ℕ, zero, suc, ◌+◌, ◌-◌, ◌*◌, ◌/◌, ◌%◌, ◌^◌, Bool, true, false, ◌&&◌, ◌||◌, Option, none, some,
  List, [], ◌∷◌, ◌++◌, length, take, drop, replicate, if◌then◌else◌, ◌==◌, ltb, leb, ◌>>=◌,
}
use squashfs_tools.Format.{metadata_size, inode_blk, inode_offset}
use squashfs_tools.Format.Fields.{field}
use squashfs_tools.Metadata.{Compressor, Writer, put_block}

-- struct cached_dir_index, with its struct squashfs_dir_index.
pub record Index : Type 0 where
  pub index : ℕ
  pub start_block : ℕ
  pub size : ℕ
  pub name : List ℕ

-- struct directory; i_count is the length of `index`.
pub record Directory : Type 0 where
  pub start_block : ℕ
  pub size : ℕ
  pub buff : List ℕ
  pub entry_count : ℕ
  pub entry_count_p : Option ℕ
  pub i_size : ℕ
  pub index : List Index
  pub index_count_p : ℕ
  pub inode_number : ℕ

-- sizeof(struct squashfs_dir_entry), sizeof(struct squashfs_dir_header), sizeof(struct
-- squashfs_dir_index).
abbrev pub entry_size : ℕ
entry_size = 8

abbrev pub header_size : ℕ
header_size = 12

abbrev pub index_size : ℕ
index_size = 12

-- SQUASHFS_NAME_LEN.
abbrev pub name_len : ℕ
name_len = 256

-- scan7_init_dir; start_block and inode_number are not set, and have what was in memory.
unfoldable pub init_dir : ℕ → ℕ → Directory
init_dir start_block inode_number = record {
  start_block = start_block;
  size = metadata_size;
  buff = [];
  entry_count = 256;
  entry_count_p = none;
  i_size = 0;
  index = [];
  index_count_p = 0;
  inode_number = inode_number;
}

-- A write of `bytes` at an offset.
abbrev pub poke : ℕ → List ℕ → List ℕ → List ℕ
poke at bytes buff = take at buff ++ (bytes ++ drop (at + length bytes) buff)

-- SQUASHFS_SWAP_DIR_HEADER of `dir_header`.
abbrev pub header_bytes : ℕ → ℕ → ℕ → List ℕ
header_bytes count start_block inode_number =
    field 4 count ++ (field 4 start_block ++ field 4 inode_number)

-- The header of the entries that are counted, at entry_count_p.
unfoldable pub put_header : Directory → List ℕ
put_header dir = elim dir.entry_count_p [
  | none ↦ dir.buff
  | some p ↦ poke p (header_bytes (dir.entry_count - 1) dir.start_block dir.inode_number) dir.buff
]

-- (long long) inode_number - dir->inode_number is above 32767, or below -32768.
abbrev pub is_far : ℕ → ℕ → Bool
is_far inode_number base = ltb (base + 32767) inode_number || ltb (inode_number + 32768) base

-- The entry would end more than a block behind the last one that is indexed.
abbrev pub wants_index : ℕ → Directory → Bool
wants_index size dir = ltb metadata_size (length dir.buff + entry_size + size - dir.index_count_p)

-- A pointer is not NULL.
abbrev pub is_set : Option ℕ → Bool
is_set none = false
is_set (some p) = true

-- The condition under which add_dir starts a new header.
unfoldable pub wants_header : ℕ → ℕ → ℕ → Directory → Bool
wants_header start_block inode_number size dir =
    dir.entry_count == 256
    || (if start_block == dir.start_block then false else true)
    || (is_set dir.entry_count_p && wants_index size dir)
    || is_far inode_number dir.inode_number

-- The realloc of dir->buff.
abbrev pub grow_dir : ℕ → Directory → ℕ
grow_dir size dir =
    if leb dir.size (length dir.buff + entry_size + size + header_size)
    then dir.size + metadata_size
    else dir.size

-- A new place in the index.
unfoldable pub add_index : ℕ → List ℕ → Directory → Directory
add_index size name dir =
    if is_set dir.entry_count_p && wants_index size dir
    then record dir {
      index =
          dir.index
          ++ (record { index = length dir.buff; start_block = 0; size = size - 1; name = name }
              ∷ []);
      i_size = dir.i_size + index_size + size;
      index_count_p = length dir.buff;
    }
    else dir

-- The space for a new header; the bytes in it are not written yet.
unfoldable pub open_header : ℕ → ℕ → Directory → Directory
open_header start_block inode_number dir = record dir {
  entry_count_p = some (length dir.buff);
  start_block = start_block;
  entry_count = 0;
  inode_number = inode_number;
  buff = put_header dir ++ replicate header_size 0;
}

-- SQUASHFS_SWAP_DIR_ENTRY of `idir`, and the name; the inode number is a signed difference in 2 bytes.
unfoldable pub entry_bytes : ℕ → ℕ → ℕ → ℕ → List ℕ → List ℕ
entry_bytes offset delta kind size name =
    field 2 offset ++ (field 2 delta ++ (field 2 kind ++ (field 2 (size - 1) ++ take size name)))

-- The entry, behind what is there.
unfoldable pub put_entry : ℕ → ℕ → ℕ → ℕ → List ℕ → Directory → Directory
put_entry offset inode_number kind size name dir = record dir {
  buff =
      dir.buff
      ++ entry_bytes offset ((inode_number + 2 ^ 32 - dir.inode_number) % 2 ^ 16) kind size name;
  entry_count = dir.entry_count + 1;
}

-- add_dir.
unfoldable pub add_dir : ℕ → ℕ → List ℕ → ℕ → Directory → Directory
add_dir inode inode_number name kind dir =
    let size = min name_len (length name) in
    let dir' = record dir { size = grow_dir size dir } in
    let start_block = inode_blk inode in
    let fresh = open_header start_block inode_number (add_index size name dir') in
    let dir'' = if wants_header start_block inode_number size dir' then fresh else dir' in
    put_entry (inode_offset inode) inode_number kind size name dir''

-- The inner loop of write_dir: the places of the index that are in the block that starts at
-- directory_bytes, and those behind it.
unfoldable pub mark_index : ℕ → ℕ → List Index → List Index × List Index
mark_index limit start_block [] = ([], [])
mark_index limit start_block (x ∷ xs) =
    let (marked, rest) = mark_index limit start_block xs in
    if ltb x.index limit
    then (record x { start_block = start_block } ∷ marked, rest)
    else ([], x ∷ xs)

-- The realloc of directory_table in front of a block.
abbrev pub grow_directories : Writer → ℕ
grow_directories w =
    if ltb (w.table_size - length w.table) (metadata_size * 2 + 2)
    then w.table_size + metadata_size * 2
    else w.table_size

-- The outer loop of write_dir, of `rounds` rounds at most; put_block is what is done for a block also in
-- the table of inodes. A place in the index is an unsigned int.
unfoldable pub put_dir :
    Compressor → Bool → ℕ → ℕ → List Index → Writer → Option (List Index × Writer)
unfolding mark_index
put_dir c noi zero limit index w = none
put_dir c noi (suc rounds) limit index w =
    let (marked, rest) = mark_index limit (length w.table % 2 ^ 32) index in
    elim (ltb (length w.cache) metadata_size) [
      | true ↦ some (marked ++ rest, w)
      | false ↦ do
        w' ← put_block c noi metadata_size w
        (others, w'') ←
            put_dir c noi rounds (limit + metadata_size) rest
              (record w' { table_size = grow_directories w })
        some (marked ++ others, w'')
    ]

-- What write_dir gives to create_inode.
pub record Written : Type 0 where
  pub byte_size : ℕ
  pub start_block : ℕ
  pub offset : ℕ
  pub index : List Index

-- The cache of the directory table with the directory's bytes in it.
abbrev pub cache_dir : Directory → Writer → Writer
cache_dir dir w = record w { cache = w.cache ++ put_header dir }

-- write_dir; where there are no entries, entry_count_p is NULL and nothing is copied. directory_block is an
-- unsigned int.
unfoldable pub write_dir : Compressor → Bool → Directory → Writer → Option (Written × Writer)
unfolding put_dir
write_dir c noi dir w = do
  (index, w') ←
      put_dir c noi ((length w.cache + length dir.buff) / metadata_size + 1)
        (metadata_size - length w.cache) dir.index (cache_dir dir w)
  some (
    record {
      byte_size = length dir.buff + 3;
      start_block = length w.table % 2 ^ 32;
      offset = length w.cache;
      index = index;
    },
    w',
  )

-- What add_dir is called with, by scan7_readdir and dir_scan7.
pub record Added : Type 0 where
  pub inode : ℕ
  pub inode_number : ℕ
  pub name : List ℕ
  pub kind : ℕ

-- The calls of add_dir for one directory.
unfoldable pub add_all : List Added → Directory → Directory
unfolding add_dir
add_all [] dir = dir
add_all (a ∷ entries) dir = add_all entries (add_dir a.inode a.inode_number a.name a.kind dir)

-- dir_scan7, as far as the directory table goes: each directory is set up, filled and written.
unfoldable pub write_dirs :
    Compressor → Bool → List (List Added) → Writer → Option (List Written × Writer)
unfolding write_dir add_all init_dir
write_dirs c noi [] w = some ([], w)
write_dirs c noi (entries ∷ dirs) w = do
  (written, w') ← write_dir c noi (add_all entries (init_dir 0 0)) w
  (others, w'') ← write_dirs c noi dirs w'
  some (written ∷ others, w'')
