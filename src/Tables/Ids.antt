-- ===== src/Tables/Ids.antt =====
-- The ids of owners and groups: get_id, create_id, get_uid and get_guid of squashfs-tools/mksquashfs.c.
use squashfs_tools.Common.{
  ℕ, ◌+◌, ◌%◌, Bool, true, false, Option, none, some, List, [], ◌∷◌, ◌++◌, length, get_elem?, set,
  update, if◌then◌else◌, ◌==◌, ◌>>=◌,
}

-- struct id; `next` is the order of its bucket. `isa_uid` and `isa_gid` are the bits of its flags.
pub record IdEntry : Type 0 where
  pub id : ℕ
  pub index : ℕ
  pub isa_uid : Bool
  pub isa_gid : Bool

-- id_table, whose length is id_count; a bucket of id_hash_table as the places of its entries in
-- id_table, which has every entry; uid_count and guid_count.
pub record Ids : Type 0 where
  pub id_table : List IdEntry
  pub id_hash_table : ℕ → List ℕ
  pub uid_count : ℕ
  pub guid_count : ℕ

abbrev pub no_ids : Ids
no_ids = record { id_table = []; id_hash_table = λ hash. []; uid_count = 0; guid_count = 0 }

-- SQUASHFS_IDS.
abbrev pub squashfs_ids : ℕ
squashfs_ids = 65536

-- ID_HASH.
abbrev pub id_hash : ℕ → ℕ
id_hash id = id % 256

abbrev pub ids_of : List IdEntry → List ℕ
ids_of [] = []
ids_of (e ∷ es) = e.id ∷ ids_of es

abbrev pub is_id : Option ℕ → ℕ → Bool
is_id none id = false
is_id (some n) id = n == id

-- The search of get_id along a bucket.
unfoldable pub find_id : List ℕ → ℕ → List ℕ → Option ℕ
find_id ids id [] = none
find_id ids id (i ∷ bucket) = if is_id (get_elem? ids i) id then some i else find_id ids id bucket

-- get_id: the place of the entry.
unfoldable pub get_id : Ids → ℕ → Option ℕ
get_id s id = find_id (ids_of s.id_table) id (s.id_hash_table (id_hash id))

-- create_id.
unfoldable pub create_id : ℕ → Ids → ℕ × Ids
create_id id s = (
  length s.id_table,
  record s {
    id_table =
        s.id_table
        ++ (record { id = id; index = length s.id_table; isa_uid = false; isa_gid = false } ∷ []);
    id_hash_table =
        update s.id_hash_table (id_hash id) (length s.id_table ∷ s.id_hash_table (id_hash id));
  },
)

-- The entry that get_uid and get_guid find or create; `none`: "Out of uids!", "Out of gids!".
unfoldable pub have_id : ℕ → Ids → Option (ℕ × Ids)
have_id id s = elim (get_id s id) [
  | some i ↦ some (i, s)
  | none ↦ if length s.id_table == squashfs_ids then none else some (create_id id s)
]

-- ISA_UID and ISA_GID are counted when they are set first.
abbrev pub mark_uid : Option IdEntry → ℕ → Ids → Ids
mark_uid none i s = s
mark_uid (some e) i s = if e.isa_uid then s else record s {
  id_table = set s.id_table i (record e { isa_uid = true });
  uid_count = s.uid_count + 1;
}

abbrev pub mark_gid : Option IdEntry → ℕ → Ids → Ids
mark_gid none i s = s
mark_gid (some e) i s = if e.isa_gid then s else record s {
  id_table = set s.id_table i (record e { isa_gid = true });
  guid_count = s.guid_count + 1;
}

unfoldable pub get_uid : ℕ → Ids → Option (ℕ × Ids)
get_uid uid s = do (i, s') ← have_id uid s; some (i, mark_uid (get_elem? s'.id_table i) i s')

unfoldable pub get_guid : ℕ → Ids → Option (ℕ × Ids)
get_guid guid s = do (i, s') ← have_id guid s; some (i, mark_gid (get_elem? s'.id_table i) i s')

-- What create_inode and the reader of an old image ask for.
pub data Owner : Type 0 where
  uid : ℕ → Owner
  gid : ℕ → Owner

abbrev pub number_of : Owner → ℕ
number_of (uid n) = n
number_of (gid n) = n

abbrev pub get_owner : Owner → Ids → Option (ℕ × Ids)
get_owner (uid n) s = get_uid n s
get_owner (gid n) s = get_guid n s

-- One after the other, with the indexes that are given.
unfoldable pub get_owners : List Owner → Ids → Option (List ℕ × Ids)
get_owners [] s = some ([], s)
get_owners (o ∷ os) s = do (i, s') ← get_owner o s; (is, s'') ← get_owners os s'; some (i ∷ is, s'')
