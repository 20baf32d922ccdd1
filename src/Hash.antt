-- ===== src/Hash.antt =====
-- The hash chains of squashfs-tools/caches-queues-lists.h: the functions that INSERT_HASH_TABLE and
-- REMOVE_HASH_TABLE expand to, for any hash and any pair of link fields. An entry's address is a
-- number, and a pointer is an `Option`, `none` for NULL.
pub mod Chain
pub mod Table
pub mod Contents
use Prim.Native.Nat.{bit_and}
use squashfs_tools.Common.{ℕ, zero, suc, Bool, Option, none, some, if◌then◌else◌, update}
use squashfs_tools.Pointer.{Pointer, update_at}

-- CALCULATE_HASH.
unfoldable pub calculate_hash : ℕ → ℕ
calculate_hash n = bit_and n 0xffff

-- The link fields of all entries, and the container's hash_table.
pub record Links : Type 0 where
  pub next : ℕ → Pointer
  pub prev : ℕ → Pointer
  pub bucket : ℕ → Pointer

-- insert_NAME_hash_table; `hash` is HASH_FUNCTION(entry->FIELD) of each entry.
unfoldable pub insert : (ℕ → ℕ) → Links → ℕ → Links
insert hash t e = record {
  next = update t.next e (t.bucket (hash e));
  prev = update_at (t.bucket (hash e)) (update t.prev e none) (some e);
  bucket = update t.bucket (hash e) (some e);
}

-- The first statement of remove_NAME_hash_table: the link to the entry is led past it.
abbrev pub unlink_before : (ℕ → ℕ) → Links → ℕ → Links
unlink_before hash t e = elim (t.prev e) [
  | none ↦ record t { bucket = update t.bucket (hash e) (t.next e) }
  | some q ↦ record t { next = update t.next q (t.next e) }
]

-- The second: so is the link back to it.
abbrev pub unlink_behind : Links → ℕ → Links
unlink_behind t e = record t { prev = update_at (t.next e) t.prev (t.prev e) }

-- The third.
abbrev pub clear_links : Links → ℕ → Links
clear_links t e = record t { next = update t.next e none; prev = update t.prev e none }

-- remove_NAME_hash_table.
unfoldable pub remove : (ℕ → ℕ) → Links → ℕ → Links
remove hash t e = clear_links (unlink_behind (unlink_before hash t e) e) e

-- The loop `for(entry = p; entry; entry = entry->next) if(test) break;` on fuel.
unfoldable pub find : (ℕ → Pointer) → (ℕ → Bool) → ℕ → Pointer → Pointer
find next test zero p = none
find next test (suc fuel) none = none
find next test (suc fuel) (some a) =
    let rest = find next test fuel (next a) in if test a then some a else rest
