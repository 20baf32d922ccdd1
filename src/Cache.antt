-- ===== src/Cache.antt =====
-- The buffer cache of squashfs-tools/caches-queues-lists.h and .c: `struct cache` with its free list
-- and its hash table, both as links in memory. Each function runs under the cache's mutex; a `none`
-- stands for the call that sleeps on `wait_for_free` or `wait_for_unlock`.
pub mod Inv
pub mod Lookup
pub mod Pick
pub mod Get
pub mod Put
mod Tests
use squashfs_tools.Common.{
  ℕ, suc, ◌+◌, ◌-◌, ◌%◌, Bool, true, false, not, ◌&&◌, Option, none, some, List, if◌then◌else◌, ltb,
  ◌==◌, update,
}
use squashfs_tools.Common.Int.{ℤ, pos, abs, int_eq}
use squashfs_tools.Pointer.{Pointer, is_set}
use squashfs_tools.Hash
use squashfs_tools.Hash.{calculate_hash}
use squashfs_tools.FreeList

-- `struct cache`, and the fields of its buffers that it uses. `used` and `max_count` share one place
-- in C: the field `used` is `max_count` in a cache without `noshrink_lookup`. Memory from `fresh` on
-- is not allocated. `owned` says that a buffer's `cache` is this cache, and not NULL.
pub record Cache : Type 0 where
  pub max_buffers : ℕ
  pub count : ℕ
  pub buffer_size : ℕ
  pub noshrink_lookup : Bool
  pub first_freelist : Bool
  pub used : ℕ
  pub free : FreeList.Links
  pub table : Hash.Links
  pub fresh : ℕ
  pub owned : ℕ → Bool
  pub index : ℕ → ℤ
  -- The `used` of a buffer is a char: its bit pattern.
  pub uses : ℕ → ℕ
  pub locked : ℕ → Bool
  pub wait_on_unlock : ℕ → Bool
  pub error : ℕ → Bool

-- CALCULATE_CACHE_HASH.
abbrev pub index_hash : ℤ → ℕ
index_hash i = calculate_hash (abs i)

abbrev pub cache_hash_of : (ℕ → ℤ) → ℕ → ℕ
cache_hash_of index e = index_hash (index e)

-- cache_init, over the memory that the program has.
unfoldable pub init : Cache → ℕ → ℕ → Bool → Bool → Cache
init memory buffer_size max_buffers noshrink_lookup first_freelist = record memory {
  max_buffers = max_buffers;
  buffer_size = buffer_size;
  count = 0;
  used = 0;
  free = record (memory.free) { head = none };
  noshrink_lookup = noshrink_lookup;
  first_freelist = first_freelist;
  table = record (memory.table) { bucket = λ b. none };
}

-- The search of cache_lookup and cache_lookup_nowait: a chain has at most `count` entries.
unfoldable pub search_hash : Cache → ℤ → Pointer
search_hash c i =
    Hash.find c.table.next (λ e. int_eq (c.index e) i) (suc c.count) (c.table.bucket (index_hash i))

-- What both do with the buffer that they found.
unfoldable pub use_again : Cache → ℕ → Cache
use_again c e =
    let c' =
      if c.uses e == 0
      then record c { free = FreeList.remove c.free e; used = c.used + 1 }
      else c in
    record c' { uses = update c'.uses e ((c'.uses e + 1) % 256) }

-- cache_lookup.
unfoldable pub lookup : Cache → ℤ → Pointer × Cache
lookup c i = elim (search_hash c i) [ none ↦ (none, c) | some e ↦ (some e, use_again c e) ]

-- cache_lookup_nowait; the flag is what it stores in `*locked`.
unfoldable pub lookup_nowait : Cache → ℤ → Option (ℕ × Bool) × Cache
lookup_nowait c i = elim (search_hash c i) [
  | none ↦ (none, c)
  | some e ↦ let c' = use_again c e in (some (e, c'.locked e), c')
]

-- cache_freelist, at a list that is not empty.
unfoldable pub freelist : Cache → ℕ → Cache
freelist c e = record c {
  free = FreeList.remove c.free e;
  table = Hash.remove (cache_hash_of c.index) c.table e;
  used = c.used + 1;
}

-- cache_alloc: the buffer at `fresh`.
unfoldable pub alloc : Cache → Cache
alloc c = record c {
  fresh = c.fresh + 1;
  owned = update c.owned c.fresh true;
  free = record (c.free) {
    next = update c.free.next c.fresh none;
    prev = update c.free.prev c.fresh none;
  };
  count = c.count + 1;
}

abbrev pub from_freelist : Cache → Option (ℕ × Cache)
from_freelist c = elim c.free.head [ none ↦ none | some e ↦ some (e, freelist c e) ]

-- How _cache_get and cache_get_nowait choose a buffer where the cache does not shrink.
unfoldable pub pick : Cache → Option (ℕ × Cache)
pick c =
    if c.first_freelist && is_set c.free.head
    then from_freelist c
    else (if ltb c.count c.max_buffers
        then some (c.fresh, record (alloc c) { used = c.used + 1 })
        else (if not c.first_freelist && is_set c.free.head then from_freelist c else none))

-- How _cache_get does where it shrinks; `used` is `max_count`.
unfoldable pub pick_shrinking : Cache → Option (ℕ × Cache)
unfolding alloc
pick_shrinking c =
    if ltb c.count c.max_buffers
    then (let c' = alloc c in
        some (c.fresh, if ltb c'.used c'.count then record c' { used = c'.count } else c'))
    else none

-- The fields that a buffer starts with.
unfoldable pub start_entry : Cache → ℕ → Bool → Cache
start_entry c e is_locked = record c {
  uses = update c.uses e 1;
  locked = update c.locked e is_locked;
  wait_on_unlock = update c.wait_on_unlock e false;
  error = update c.error e false;
}

-- cache_hash.
unfoldable pub hash_entry : Cache → ℕ → ℤ → Cache
hash_entry c e i =
    let index = update c.index e i in
    record c { index = index; table = Hash.insert (cache_hash_of index) c.table e }

-- One pass of the loop of _cache_get, and what follows it.
unfoldable pub get_entry : Cache → ℤ → Bool → Option (ℕ × Cache)
get_entry c i hashed = elim (if c.noshrink_lookup then pick c else pick_shrinking c) [
  | none ↦ none
  | some (e, c') ↦
      let c'' = start_entry c' e false in some (e, if hashed then hash_entry c'' e i else c'')
]

-- cache_get and cache_get_nohash.
abbrev pub get : Cache → ℤ → Option (ℕ × Cache)
get c i = get_entry c i true

abbrev pub get_nohash : Cache → Option (ℕ × Cache)
get_nohash c = get_entry c (pos 0) false

-- cache_get_nowait: `none` is NULL here.
unfoldable pub get_nowait : Cache → ℤ → Option (ℕ × Cache)
get_nowait c i = elim (pick c) [
  | none ↦ none
  | some (e, c') ↦ some (e, hash_entry (start_entry c' e true) e i)
]

-- cache_block_put: the cache, and whether it signals `wait_for_free`. Memory that is freed is not
-- used again.
unfoldable pub block_put : Cache → Pointer → Cache × Bool
block_put c none = (c, false)
block_put c (some e) =
    if not (c.owned e)
    then (c, false)
    else (let c' = record c { uses = update c.uses e ((c.uses e + 255) % 256) } in
        if c'.uses e == 0
        then (if c'.noshrink_lookup
            then (record c' { free = FreeList.insert c'.free e; used = c'.used - 1 }, true)
            else (record c' { count = c'.count - 1 }, true))
        else (c', false))

-- One pass of the loop of cache_wait_unlock: whether it sleeps.
unfoldable pub wait_unlock : Cache → ℕ → Cache × Bool
wait_unlock c e =
    if c.locked e
    then (record c { wait_on_unlock = update c.wait_on_unlock e true }, true)
    else (c, false)

-- cache_unlock, and whether it broadcasts `wait_for_unlock`.
unfoldable pub unlock : Cache → ℕ → Cache × Bool
unlock c e =
    let c' = record c { locked = update c.locked e false } in
    if c'.wait_on_unlock e
    then (record c' { wait_on_unlock = update c'.wait_on_unlock e false }, true)
    else (c', false)

-- What dump_cache prints: max_buffers, count, used or max_count, and whether there are free buffers.
unfoldable pub dump : Cache → ℕ × ℕ × ℕ × Option Bool
dump c =
    (c.max_buffers, c.count, c.used, if c.noshrink_lookup then some (is_set c.free.head) else none)
