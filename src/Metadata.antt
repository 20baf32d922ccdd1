-- ===== src/Metadata.antt =====
-- Blocks of metadata: how squashfs-tools/mksquashfs.c packs inodes and directories into compressed
-- blocks (mangle, get_inode, write_inodes, write_directories).
pub mod Reader
pub mod Blocks
pub mod Fetching
pub mod Filling
pub mod Loops
pub mod Flushing
pub mod Reading
pub mod Stored
pub mod ByteReader
pub mod Laws
pub mod Roundtrip
pub mod RunLength
mod Tests
use Prim.Native.Nat.{min}
use squashfs_tools.Common.{
  ℕ, zero, suc, ◌+◌, ◌-◌, ◌*◌, ◌/◌, ◌%◌, ◌^◌, Bool, true, false, Option, none, some, List, [], ◌∷◌,
  ◌++◌, length, take, drop, update, if◌then◌else◌, ◌==◌, ltb, leb, ◌>>=◌,
}
use squashfs_tools.Format.{metadata_size, compressed_size, is_compressed, make_inode}

-- A compressor, behind compressor_compress and compressor_uncompress; `none` stands for their -1.
-- `compress s size` gives no bytes, which the source sees as 0, where they would not fit `size`.
pub record Compressor : Type 0 where
  pub compress : List ℕ → ℕ → Option (List ℕ)
  pub uncompress : List ℕ → ℕ → Option (List ℕ)

-- `n | (1 << k)`.
abbrev pub with_bit : ℕ → ℕ → ℕ
with_bit k n = if n / 2 ^ k % 2 == 0 then n + 2 ^ k else n

-- The end of mangle2: what it puts at `d`, and what it returns. `bit` is the number of
-- SQUASHFS_COMPRESSED_BIT, or of SQUASHFS_COMPRESSED_BIT_BLOCK for a block of data.
unfoldable pub store_smaller : ℕ → List ℕ → List ℕ → List ℕ × ℕ
store_smaller bit s d =
    if length d == 0
    then (s, with_bit bit (length s))
    else (if leb (length s) (length d) then (s, with_bit bit (length s)) else (d, length d))

-- mangle2; mangle calls it with the main thread's stream. `none`: the program ends.
unfoldable pub mangle : Compressor → ℕ → ℕ → Bool → List ℕ → Option (List ℕ × ℕ)
unfolding store_smaller
mangle c bit block_size true s = some (store_smaller bit s [])
mangle c bit block_size false s = do d ← c.compress s block_size; some (store_smaller bit s d)

-- A table that is being written: `cache` has the bytes of data_cache in use, `table` those of
-- inode_table; the sizes are those of the memory behind them. For directories these are
-- directory_data_cache and directory_table.
pub record Writer : Type 0 where
  pub cache : List ℕ
  pub cache_size : ℕ
  pub table : List ℕ
  pub table_size : ℕ
  pub total : ℕ

-- BLOCK_OFFSET: the bytes of the size word in front of a block.
abbrev pub block_offset : ℕ
block_offset = 2

-- The bytes that a round asks for: (SQUASHFS_METADATA_SIZE << 1) + 2.
abbrev pub headroom : ℕ
headroom = metadata_size * 2 + 2

-- The realloc of inode_table in front of a block.
abbrev pub grow_table : Writer → ℕ
grow_table w =
    if ltb (w.table_size - length w.table) headroom then w.table_size + headroom else w.table_size

-- The two bytes of a size word, by SQUASHFS_SWAP_SHORTS.
abbrev pub short_bytes : ℕ → List ℕ
short_bytes n = n % 256 ∷ n / 256 % 256 ∷ []

-- A round of the loops: a block of the first `avail` bytes of the cache. The source copies
-- SQUASHFS_COMPRESSED_SIZE(c_byte) bytes behind the size word.
unfoldable pub put_block : Compressor → Bool → ℕ → Writer → Option Writer
unfolding mangle
put_block c noi avail w = do
  (d, c_byte) ← mangle c 15 metadata_size noi (take avail w.cache)
  some (record w {
    table =
        w.table ++ (short_bytes (c_byte % 2 ^ 16) ++ take (compressed_size (c_byte % 2 ^ 16)) d);
    table_size = grow_table w;
    total = w.total + avail + block_offset;
    cache = drop avail w.cache;
  })

-- The loop of get_inode, of `rounds` rounds at most.
unfoldable pub put_full : Compressor → Bool → ℕ → Writer → Option Writer
unfolding put_block
put_full c noi zero w = some w
put_full c noi (suc rounds) w = elim (leb metadata_size (length w.cache)) [
  | true ↦ do w' ← put_block c noi metadata_size w; put_full c noi rounds w'
  | false ↦ some w
]

-- The realloc of data_cache: `req` bytes are wanted behind those in use.
abbrev pub grow_cache : ℕ → Writer → ℕ
grow_cache req w =
    if ltb (w.cache_size - length w.cache) req
    then w.cache_size
      + (if w.cache_size == 0
          then (req + metadata_size) / metadata_size * metadata_size
          else req - (w.cache_size - length w.cache))
    else w.cache_size

-- get_inode, with the bytes that its caller then puts at the place it is given, and MKINODE of
-- that place.
unfoldable pub get_inode : Compressor → Bool → List ℕ → Writer → Option (Writer × ℕ)
unfolding put_full
get_inode c noi bytes w = do
  w' ← put_full c noi (length w.cache / metadata_size) w
  some (
    record w' { cache = w'.cache ++ bytes; cache_size = grow_cache (length bytes) w' },
    make_inode (length w'.table) (length w'.cache),
  )

-- The loop of write_inodes and of write_directories, of `rounds` rounds at most.
unfoldable pub put_rest : Compressor → Bool → ℕ → Writer → Option Writer
unfolding put_block
put_rest c noi zero w = some w
put_rest c noi (suc rounds) w = elim (length w.cache == 0) [
  | true ↦ some w
  | false ↦ do w' ← put_block c noi (min metadata_size (length w.cache)) w; put_rest c noi rounds w'
]

-- write_inodes, write_directories: the bytes that write_destination puts at the image's end.
unfoldable pub write_table : Compressor → Bool → Writer → Option (List ℕ)
unfolding put_rest
write_table c noi w = do w' ← put_rest c noi (length w.cache / metadata_size + 1) w; some w'.table

-- create_inode, once for each of `inodes`: the bytes that it puts down, and the places.
unfoldable pub get_inodes : Compressor → Bool → List (List ℕ) → Writer → Option (Writer × List ℕ)
unfolding get_inode
get_inodes c noi [] w = some (w, [])
get_inodes c noi (inode ∷ inodes) w = do
  (w', place) ← get_inode c noi inode w
  (w'', places) ← get_inodes c noi inodes w'
  some (w'', place ∷ places)

-- The places, and the table that is written at the end.
unfoldable pub write_all : Compressor → Bool → List (List ℕ) → Writer → Option (List ℕ × List ℕ)
unfolding get_inodes write_table
write_all c noi inodes w = do
  (w', places) ← get_inodes c noi inodes w
  table ← write_table c noi w'
  some (places, table)
