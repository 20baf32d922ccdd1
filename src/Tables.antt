-- ===== src/Tables.antt =====
-- The tables of ids and fragments on disk: generic_write_table, write_id_table and
-- write_fragment_table of squashfs-tools/mksquashfs.c. The image is what is written of it so far, up to
-- `bytes`; the totals that are only printed are left out.
pub mod Load
pub mod Laws
pub mod Roundtrip
pub mod Ids
pub mod Filed
pub mod Owners
pub mod Owned
pub mod Super
pub mod Written
pub mod Filesystem
pub mod Parts
pub mod Exports
pub mod Ready
pub mod Pieces
pub mod Reread
pub mod Whole
mod Tests
use Prim.Native.Nat.{min}
use squashfs_tools.Common.{
  ℕ, zero, suc, ◌+◌, ◌-◌, ◌*◌, ◌/◌, ◌%◌, ◌^◌, Bool, Option, none, some, List, [], ◌∷◌, ◌++◌, length,
  take, drop, ◌>>=◌,
}
use squashfs_tools.Format.{metadata_size, compressed_size}
use squashfs_tools.Format.Fields.{field, ints}
use squashfs_tools.Metadata.{Compressor, mangle, short_bytes}

-- The bytes that a round adds to the image.
abbrev pub block_bytes : List ℕ × ℕ → List ℕ
block_bytes (d, c_byte) =
    short_bytes (c_byte % 2 ^ 16) ++ take (compressed_size (c_byte % 2 ^ 16)) d

-- The loop over the blocks: the image, and `list`, the places of the blocks.
unfoldable pub write_blocks : Compressor → Bool → ℕ → List ℕ → List ℕ → Option (List ℕ × List ℕ)
write_blocks c uncompressed zero buffer image = some (image, [])
write_blocks c uncompressed (suc meta_blocks) buffer image = do
  written ← mangle c 15 metadata_size uncompressed (take (min metadata_size (length buffer)) buffer)
  (image', list) ←
      write_blocks c uncompressed meta_blocks (drop (min metadata_size (length buffer)) buffer)
        (image ++ block_bytes written)
  some (image', length image ∷ list)

-- SQUASHFS_INSWAP_LONG_LONGS of the list, as it stands on disk.
abbrev pub longs : List ℕ → List ℕ
longs [] = []
longs (n ∷ ns) = field 8 n ++ longs ns

-- generic_write_table: the place of what is behind the blocks, and the image.
unfoldable pub generic_write_table :
    Compressor → Bool → List ℕ → List ℕ → List ℕ → Option (ℕ × List ℕ)
generic_write_table c uncompressed buffer buffer2 image = do
  (image', list) ←
      write_blocks c uncompressed ((length buffer + metadata_size - 1) / metadata_size) buffer image
  some (length image', image' ++ (buffer2 ++ longs list))

-- write_id_table; `ids` are those of id_table.
unfoldable pub write_id_table : Compressor → Bool → List ℕ → List ℕ → Option (ℕ × List ℕ)
write_id_table c uncompressed ids image = generic_write_table c uncompressed (ints ids) [] image

-- struct squashfs_fragment_entry.
pub record Fragment : Type 0 where
  pub start_block : ℕ
  pub size : ℕ
  pub unused : ℕ

abbrev pub fragment_bytes : List Fragment → List ℕ
fragment_bytes [] = []
fragment_bytes (f ∷ fs) =
    (field 8 f.start_block ++ (field 4 f.size ++ field 4 f.unused)) ++ fragment_bytes fs

-- write_fragment_table.
unfoldable pub write_fragment_table :
    Compressor → Bool → List Fragment → List ℕ → Option (ℕ × List ℕ)
write_fragment_table c uncompressed fragments image =
    generic_write_table c uncompressed (fragment_bytes fragments) [] image
