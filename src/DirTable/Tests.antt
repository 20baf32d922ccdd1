-- ===== src/DirTable/Tests.antt =====
-- A directory of two entries.
use squashfs_tools.Common.{ℕ, ◌≡◌, refl, false, some, List, [], ◌∷◌, ◌++◌, arith}
use squashfs_tools.Directory.{check_name, check_directory, scan, strcmp, ascending}
use squashfs_tools.DirTable.{
  Added, Written, init_dir, add_dir, add_all, put_header, wants_header, add_index, open_header,
  entry_bytes, put_entry, mark_index, put_dir, write_dir, write_dirs,
}
use squashfs_tools.DirTable.Image.{IsListing}
use squashfs_tools.DirTable.Roundtrip.{AreOpened, IsAddressable, write_dirs-opendir}
use squashfs_tools.Format.{compressed_size, inode_blk, inode_offset}
use squashfs_tools.Metadata.{Writer, mangle, store_smaller, put_block, put_rest, write_table}
use squashfs_tools.Metadata.Fetching.{plain_image}
use squashfs_tools.Metadata.RunLength.{run_length, run_length-IsLossless}

abbrev blank : Writer
blank = record { cache = []; cache_size = 0; table = []; table_size = 0; total = 0 }

-- The files "a" and "bc", at the inodes 0:32 and 1:64.
abbrev two_files : List Added
two_files =
    record { inode = 32; inode_number = 2; name = b'a' ∷ []; kind = 2 }
    ∷ record { inode = 65600; inode_number = 1; name = b'b' ∷ b'c' ∷ []; kind = 2 }
    ∷ []

two_files_bytes :
    put_header (add_all two_files (init_dir 0 0))
    ≡ 0 ∷ 0 ∷ 0 ∷ 0 ∷ 0 ∷ 0 ∷ 0 ∷ 0 ∷ 2 ∷ 0 ∷ 0 ∷ 0 ∷ 32 ∷ 0 ∷ 0 ∷ 0 ∷ 2 ∷ 0 ∷ 0 ∷ 0 ∷ b'a' ∷ 0 ∷ 0
      ∷ 0 ∷ 0 ∷ 1 ∷ 0 ∷ 0 ∷ 0 ∷ 1 ∷ 0 ∷ 0 ∷ 0 ∷ 64 ∷ 0 ∷ 0 ∷ 0 ∷ 2 ∷ 0 ∷ 1 ∷ 0 ∷ b'b' ∷ b'c' ∷ []
unfolding put_header add_all add_dir init_dir wants_header add_index open_header entry_bytes
    put_entry inode_blk inode_offset
two_files_bytes = refl

two_files-IsListing : IsListing two_files
unfolding add_all add_dir init_dir put_header wants_header add_index open_header entry_bytes
    put_entry inode_blk inode_offset check_name scan check_directory ascending strcmp
two_files-IsListing = record {
  some_names = (omega arith, (omega arith, tt));
  kinds = (omega arith, (omega arith, tt));
  named = (refl, (refl, tt));
  in_order = refl;
  fits = omega arith;
}

empty-IsListing : IsListing []
unfolding add_all init_dir check_directory
empty-IsListing = record {
  some_names = tt;
  kinds = tt;
  named = tt;
  in_order = refl;
  fits = omega arith;
}

dirs-IsAddressable :
    IsAddressable run_length false (write_dirs run_length false (two_files ∷ [] ∷ []) blank)
unfolding write_dirs write_dir put_dir mark_index add_all add_dir init_dir put_header wants_header
    add_index open_header entry_bytes put_entry inode_blk inode_offset write_table put_rest
    put_block mangle store_smaller compressed_size
dirs-IsAddressable = omega arith

write_dirs-opendir_example :
    (written : List Written) × (w' : Writer) × (table : List ℕ) × (write_dirs run_length false
        (two_files ∷ [] ∷ [])
        blank
      ≡ some (written, w'))
    × (write_table run_length false w' ≡ some table)
    × AreOpened run_length (plain_image ((9 ∷ []) ++ (table ++ []))) 1 (two_files ∷ [] ∷ []) written
write_dirs-opendir_example =
    write_dirs-opendir run_length false (two_files ∷ [] ∷ []) blank (9 ∷ []) []
      run_length-IsLossless (omega arith) (two_files-IsListing, (empty-IsListing, tt))
      dirs-IsAddressable
