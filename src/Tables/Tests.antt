-- ===== src/Tables/Tests.antt =====
-- Two ids and two fragments.
use squashfs_tools.Common.{
  ℕ, ◌≡◌, ◌⊎◌, refl, true, false, none, some, List, [], ◌∷◌, ◌++◌, ◌%◌, ◌^◌, arith, length,
}
use squashfs_tools.Format.{compressed_size}
use squashfs_tools.Metadata.{Writer, mangle, store_smaller}
use squashfs_tools.Metadata.Fetching.{plain_image}
use squashfs_tools.Metadata.RunLength.{run_length, run_length-IsLossless}
use squashfs_tools.Tables.{Fragment, write_id_table, generic_write_table, write_blocks}
use squashfs_tools.Tables.Load.{read_id_table}
use squashfs_tools.Tables.Super.{Superblock, squashfs_magic}
use squashfs_tools.Tables.Filesystem
use squashfs_tools.Tables.Ids.{
  Ids, ids_of, no_ids, Owner, uid, gid, get_owner, get_owners, get_uid, get_guid, have_id, get_id,
  find_id, create_id,
}
use squashfs_tools.Tables.Owners.{Had, IsOut, get_owner_lem}
use squashfs_tools.Tables.Owned.{HaveIds, no_ids-IsFiled, get_owners-read_id_table}

abbrev owners : List ℕ
owners = 1000 ∷ 0 ∷ []

write_owners :
    write_id_table run_length false owners (9 ∷ [])
    ≡ some (11, 9 ∷ 8 ∷ 128 ∷ 232 ∷ 3 ∷ 0 ∷ 0 ∷ 0 ∷ 0 ∷ 0 ∷ 0 ∷ 1 ∷ 0 ∷ 0 ∷ 0 ∷ 0 ∷ 0 ∷ 0 ∷ 0 ∷ [])
unfolding write_id_table generic_write_table write_blocks mangle store_smaller compressed_size
write_owners = refl

abbrev askers : List Owner
askers = uid 1000 ∷ gid 0 ∷ uid 1000 ∷ []

get_askers :
    (s : Ids) × (get_owners askers no_ids ≡ some (0 ∷ 1 ∷ 0 ∷ [], s))
    × (ids_of s.id_table ≡ owners)
    × (s.uid_count ≡ 1)
unfolding get_owners get_uid get_guid have_id get_id find_id create_id
get_askers = (_, refl, refl, refl)

get_owners-read_id_table_example :
    (is : List ℕ) × (s : Ids) × (start : ℕ) × (whole ids : List ℕ) × (get_owners askers no_ids
      ≡ some (is, s))
    × (write_id_table run_length false (ids_of s.id_table) (9 ∷ []) ≡ some (start, whole))
    × (read_id_table run_length
          (plain_image (whole ++ (7 ∷ [])))
          (length s.id_table % 2 ^ 16)
          start
          (length whole)
        ≡ some (ids, 1))
    × HaveIds ids askers is
unfolding get_owners get_uid get_guid have_id get_id find_id create_id write_id_table
    generic_write_table write_blocks mangle store_smaller compressed_size
get_owners-read_id_table_example =
    get_owners-read_id_table run_length false askers (9 ∷ []) (7 ∷ []) run_length-IsLossless
      (omega arith) (omega arith) (omega arith, (omega arith, (omega arith, tt))) (omega arith)

get_owner_lem_example :
    ((get_owner (uid 5) no_ids ≡ none) × IsOut 5 no_ids)
    ⊎ ((i : ℕ) × (s' : Ids) × (get_owner (uid 5) no_ids ≡ some (i, s')) × Had 5 i no_ids s')
get_owner_lem_example = get_owner_lem (uid 5) no_ids no_ids-IsFiled

abbrev pieces : List Fragment
pieces =
    record { start_block = 96; size = 16777228; unused = 0 }
    ∷ record { start_block = 108; size = 7; unused = 0 }
    ∷ []

abbrev one_owner : Ids
one_owner = record {
  id_table = record { id = 1000; index = 0; isa_uid = true; isa_gid = true } ∷ [];
  id_hash_table = λ hash. [];
  uid_count = 1;
  guid_count = 1;
}

abbrev nothing : Writer
nothing = record { cache = []; cache_size = 0; table = []; table_size = 0; total = 0 }

abbrev one_file : Filesystem.Tables
one_file = record {
  inodes = record nothing { cache = 1 ∷ 2 ∷ 3 ∷ [] };
  directories = nothing;
  fragments = pieces;
  inode_info = record { inode_number = 1; inode = 0 } ∷ record { inode_number = 2; inode = 3 } ∷ [];
  inode_lookup_table = 7 ∷ 7 ∷ [];
  sinode_count = 0;
  ids = one_owner;
  exportable = true;
  no_i = false;
  no_f = false;
  no_id = false;
}

abbrev fresh : Superblock
fresh = record {
  s_magic = squashfs_magic;
  inodes = 2;
  mkfs_time = 5;
  block_size = 131072;
  fragments = 0;
  compression = 0;
  block_log = 17;
  flags = 192;
  no_ids = 0;
  s_major = 4;
  s_minor = 0;
  root_inode = 0;
  bytes_used = 0;
  id_table_start = 0;
  xattr_id_table_start = 0;
  inode_table_start = 0;
  directory_table_start = 0;
  fragment_table_start = 0;
  lookup_table_start = 0;
}
