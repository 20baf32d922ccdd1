-- ===== src/Tables/Load.antt =====
-- The readers of the tables of ids, fragments and exports: read_id_table, read_fragment_table and
-- parse_exports_table of squashfs-tools/unsquash-4.c. `table_start` is *table_start: where the index
-- ends, and then where the table's first block starts.
use squashfs_tools.Common.{
  ℕ, zero, suc, ◌+◌, ◌*◌, ◌%◌, Option, none, some, List, [], ◌∷◌, ◌++◌, length, drop, get_or,
  if◌then◌else◌, ◌==◌, ◌>>=◌,
}
use squashfs_tools.Format.{
  metadata_size, table_bytes, table_blocks, id_size, fragment_entry_size, inode_size,
}
use squashfs_tools.Format.Fields.{int_at, long_at}
use squashfs_tools.Metadata.{Compressor}
use squashfs_tools.Metadata.Reader.{Image, read_fs_bytes, read_block}
use squashfs_tools.Tables.{Fragment}

-- `n` numbers of 8 bytes, or of 4.
abbrev pub longs_of : ℕ → List ℕ → List ℕ
longs_of zero bytes = []
longs_of (suc n) bytes = long_at 0 bytes ∷ longs_of n (drop 8 bytes)

abbrev pub ints_of : ℕ → List ℕ → List ℕ
ints_of zero bytes = []
ints_of (suc n) bytes = int_at 0 bytes ∷ ints_of n (drop 4 bytes)

abbrev pub fragments_of : ℕ → List ℕ → List Fragment
fragments_of zero bytes = []
fragments_of (suc n) bytes =
    record { start_block = long_at 0 bytes; size = int_at 8 bytes; unused = int_at 12 bytes }
    ∷ fragments_of n (drop 16 bytes)

-- The index: its length is checked against its place, and it is read.
unfoldable pub read_index : Image → ℕ → ℕ → ℕ → Option (List ℕ)
read_index image indexes start table_start =
    if table_start == start + indexes * 8
    then (do bytes ← read_fs_bytes image start (indexes * 8); some (longs_of indexes bytes))
    else none

-- `expected` of the loops over the blocks.
abbrev pub expected_at : ℕ → ℕ → ℕ → ℕ
expected_at bytes indexes i = if i + 1 == indexes then bytes % metadata_size else metadata_size

-- The loops over the blocks, from the block `i` on.
unfoldable pub read_blocks : Compressor → Image → ℕ → ℕ → ℕ → List ℕ → Option (List ℕ)
read_blocks c image bytes indexes i [] = some []
read_blocks c image bytes indexes i (start ∷ index) = do
  (block, next) ← read_block c image start (expected_at bytes indexes i)
  rest ← (if length block == 0 then none else read_blocks c image bytes indexes (i + 1) index)
  some (block ++ rest)

-- A table of `count` entries of `size` bytes: its bytes, and where its first block starts.
unfoldable pub read_table : Compressor → Image → ℕ → ℕ → ℕ → ℕ → Option (List ℕ × ℕ)
read_table c image size count start table_start = do
  index ← read_index image (table_blocks size count) start table_start
  bytes ← read_blocks c image (table_bytes size count) (table_blocks size count) 0 index
  some (bytes, get_or index 0 0)

-- read_id_table; `no_ids` and `id_table_start` are the superblock's. With no ids the source reads an
-- index that has no entries; here its first entry is then 0.
unfoldable pub read_id_table : Compressor → Image → ℕ → ℕ → ℕ → Option (List ℕ × ℕ)
read_id_table c image no_ids id_table_start table_start = do
  (bytes, first) ← read_table c image id_size no_ids id_table_start table_start
  some (ints_of no_ids bytes, first)

-- read_fragment_table.
unfoldable pub read_fragment_table : Compressor → Image → ℕ → ℕ → ℕ → Option (List Fragment × ℕ)
read_fragment_table c image fragments fragment_table_start table_start = do
  (bytes, first) ← read_table c image fragment_entry_size fragments fragment_table_start table_start
  some (fragments_of fragments bytes, first)

-- parse_exports_table: of the blocks only the place of the first is wanted.
unfoldable pub parse_exports_table : Image → ℕ → ℕ → ℕ → Option ℕ
parse_exports_table image inodes lookup_table_start table_start = do
  index ← read_index image (table_blocks inode_size inodes) lookup_table_start table_start
  some (get_or index 0 0)
