-- ===== src/Metadata/Tests.antt =====
-- A table of three pieces of metadata, the second of which is compressed.
use squashfs_tools.Common.{ℕ, ◌≡◌, ◌≢◌, refl, false, some, List, [], ◌∷◌, replicate}
use squashfs_tools.Metadata.{
  Writer, mangle, store_smaller, put_block, put_full, put_rest, get_inode, get_inodes, write_table,
  write_all,
}
use squashfs_tools.Metadata.Fetching.{plain_image}
use squashfs_tools.Metadata.Reader.{
  Table, Place, stuck, got, read_metadata, read_loop, get_metadata, find_start, fetch, read_block,
  read_fs_bytes, unpack,
}
use squashfs_tools.Metadata.Reading.{
  IsFaithful, plain_read, read_metadata-plain_read, read_metadata-ne-stuck,
}
use squashfs_tools.Metadata.RunLength.{run_length}
use squashfs_tools.Format.{compressed_size, is_compressed, make_inode}

abbrev blank : Writer
blank = record { cache = []; cache_size = 0; table = []; table_size = 0; total = 0 }

abbrev pieces : List (List ℕ)
pieces = (1 ∷ 2 ∷ 3 ∷ []) ∷ (4 ∷ 5 ∷ []) ∷ []

write_pieces :
    write_all run_length false pieces blank ≡ some (0 ∷ 3 ∷ [], 5 ∷ 128 ∷ 1 ∷ 2 ∷ 3 ∷ 4 ∷ 5 ∷ [])
unfolding write_all write_table get_inodes get_inode put_full put_rest put_block mangle
    store_smaller make_inode compressed_size
write_pieces = refl

write_run :
    write_all run_length false (replicate 9 7 ∷ []) blank ≡ some (0 ∷ [], 2 ∷ 0 ∷ 7 ∷ 9 ∷ [])
unfolding write_all write_table get_inodes get_inode put_full put_rest put_block mangle
    store_smaller make_inode compressed_size
write_run = refl

abbrev no_table : Table
no_table hash = []

no_table-IsFaithful : IsFaithful run_length (plain_image (2 ∷ 0 ∷ 7 ∷ 9 ∷ [])) no_table
no_table-IsFaithful = record { entries = λ hash. tt }

abbrev third : Place
third = record { blk = 0; off = 2 }

read_run :
    (read_metadata run_length (plain_image (2 ∷ 0 ∷ 7 ∷ 9 ∷ [])) no_table third 3).0
    ≡ got (7 ∷ 7 ∷ 7 ∷ []) (record { blk = 0; off = 5 })
unfolding read_metadata read_loop get_metadata find_start fetch read_block read_fs_bytes unpack
    compressed_size is_compressed
read_run = refl

read_metadata-plain_read_example :
    ((read_metadata run_length (plain_image (2 ∷ 0 ∷ 7 ∷ 9 ∷ [])) no_table third 3).0
      ≡ plain_read run_length (plain_image (2 ∷ 0 ∷ 7 ∷ 9 ∷ [])) third 3)
    × IsFaithful run_length
        (plain_image (2 ∷ 0 ∷ 7 ∷ 9 ∷ []))
        (read_metadata run_length (plain_image (2 ∷ 0 ∷ 7 ∷ 9 ∷ [])) no_table third 3).1
read_metadata-plain_read_example =
    read_metadata-plain_read run_length (plain_image (2 ∷ 0 ∷ 7 ∷ 9 ∷ [])) no_table third 3
      no_table-IsFaithful

read_metadata-ne-stuck_example :
    (read_metadata run_length (plain_image (2 ∷ 0 ∷ 7 ∷ 9 ∷ [])) no_table third 3).0 ≢ stuck
read_metadata-ne-stuck_example =
    read_metadata-ne-stuck run_length (plain_image (2 ∷ 0 ∷ 7 ∷ 9 ∷ [])) no_table third 3
      no_table-IsFaithful
