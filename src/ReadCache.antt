-- ===== src/ReadCache.antt =====
-- The cache of metadata, fragments and data blocks of squashfs-tools/unsquashfs.c. Each function runs
-- under the cache's mutex. The number of users of a buffer is an int that is only counted up and
-- down; the overflow of a signed int has no meaning in C, and no model here.
pub mod Inv
pub mod Choose
pub mod Share
pub mod Get
pub mod Put
mod Tests
use squashfs_tools.Common.{
  ℕ, suc, ◌+◌, ◌-◌, Bool, true, false, not, ◌&&◌, ◌||◌, Option, none, some, if◌then◌else◌, ltb,
  ◌==◌, update,
}
use squashfs_tools.Pointer.{Pointer, same, is_set}
use squashfs_tools.Hash
use squashfs_tools.Hash.{calculate_hash}
use squashfs_tools.FreeList

-- `struct cache`, and the fields of its buffers. Memory from `fresh` on is not allocated.
pub record ReadCache : Type 0 where
  pub max_buffers : ℕ
  pub count : ℕ
  pub used : ℕ
  pub buffer_size : ℕ
  pub wait_free : Bool
  pub wait_pending : Bool
  pub free : FreeList.Links
  pub table : Hash.Links
  pub fresh : ℕ
  pub block : ℕ → ℕ
  pub size : ℕ → ℕ
  pub uses : ℕ → ℕ
  pub error : ℕ → Bool
  pub pending : ℕ → Bool

-- TABLE_HASH of an entry's block.
abbrev pub table_hash : (ℕ → ℕ) → ℕ → ℕ
table_hash block e = calculate_hash (block e)

-- insert_hash_table and remove_hash_table: the statements of the macros' expansions.
abbrev pub insert_hash_table : ReadCache → ℕ → ReadCache
insert_hash_table c e = record c { table = Hash.insert (table_hash c.block) c.table e }

abbrev pub remove_hash_table : ReadCache → ℕ → ReadCache
remove_hash_table c e = record c { table = Hash.remove (table_hash c.block) c.table e }

-- insert_free_list.
abbrev pub insert_free_list : ReadCache → ℕ → ReadCache
insert_free_list c e = record c { free = FreeList.insert c.free e }

-- remove_free_list: an entry that is not on the list is left alone.
unfoldable pub unlist : FreeList.Links → ℕ → FreeList.Links
unlist l e =
    if not (is_set (l.prev e)) || not (is_set (l.next e))
    then l
    else FreeList.clear_links
        (if same (l.prev e) (some e) && same (l.next e) (some e)
          then record l { head = none }
          else FreeList.unlink l e)
        e

abbrev pub remove_free_list : ReadCache → ℕ → ReadCache
remove_free_list c e = record c { free = unlist c.free e }

-- cache_init, over the memory that the program has.
unfoldable pub init : ReadCache → ℕ → ℕ → ReadCache
init memory buffer_size max_buffers = record memory {
  max_buffers = max_buffers;
  buffer_size = buffer_size;
  count = 0;
  used = 0;
  free = record (memory.free) { head = none };
  table = record (memory.table) { bucket = λ b. none };
  wait_free = false;
  wait_pending = false;
}

-- The search that cache_get begins with: a chain has at most `count` entries.
unfoldable pub find_block : ReadCache → ℕ → Pointer
find_block c block =
    Hash.find c.table.next (λ e. c.block e == block) (suc c.count)
      (c.table.bucket (calculate_hash block))

-- What it does with the buffer that it found.
unfoldable pub share : ReadCache → ℕ → ReadCache
share c e =
    let c' = if c.uses e == 0 then remove_free_list (record c { used = c.used + 1 }) e else c in
    record c' { uses = update c'.uses e (c'.uses e + 1) }

-- The buffer that malloc gives.
unfoldable pub alloc : ReadCache → ReadCache
alloc c = record c {
  fresh = c.fresh + 1;
  free = record (c.free) {
    next = update c.free.next c.fresh none;
    prev = update c.free.prev c.fresh none;
  };
  count = c.count + 1;
}

-- The buffer that cache_get fills: a new one, or the first of the free list.
unfoldable pub choose : ReadCache → Option (ℕ × ReadCache)
choose c = if ltb c.count c.max_buffers then some (c.fresh, alloc c) else elim c.free.head [
  | none ↦ none
  | some e ↦ some (e, remove_hash_table (remove_free_list c e) e)
]

-- The fields that it starts with, and its place in the hash table.
unfoldable pub start : ReadCache → ℕ → ℕ → ℕ → ReadCache
start c e block size =
    let c' = record c {
      block = update c.block e block;
      size = update c.size e size;
      uses = update c.uses e 1;
      error = update c.error e false;
      pending = update c.pending e true;
    } in
    let c'' = insert_hash_table c' e in record c'' { used = c''.used + 1 }

-- How cache_get ends: with a buffer that was found, with one that it puts on the queue to_reader, or
-- asleep on wait_for_free.
pub data Outcome : Type 0 where
  found : ℕ → ReadCache → Outcome
  queued : ℕ → ReadCache → Outcome
  sleeps : ReadCache → Outcome

-- The branch of a block that is not in the cache; a thread that wakes up from its sleep goes on here.
unfoldable pub get_missing : ReadCache → ℕ → ℕ → Outcome
get_missing c block size = elim (choose c) [
  | none ↦ sleeps (record c { wait_free = true })
  | some (e, c') ↦ queued e (start c' e block size)
]

-- cache_get.
unfoldable pub get : ReadCache → ℕ → ℕ → Outcome
get c block size = elim (find_block c block) [
  | some e ↦ found e (share c e)
  | none ↦ get_missing c block size
]

-- cache_block_ready, and whether it broadcasts wait_for_pending.
unfoldable pub block_ready : ReadCache → ℕ → Bool → ReadCache × Bool
block_ready c e error =
    let c' = record c { pending = update c.pending e false; error = update c.error e error } in
    if c'.wait_pending then (record c' { wait_pending = false }, true) else (c', false)

-- One pass of the loop of cache_block_wait: whether it sleeps on wait_for_pending.
unfoldable pub block_wait : ReadCache → ℕ → ReadCache × Bool
block_wait c e = if c.pending e then (record c { wait_pending = true }, true) else (c, false)

-- cache_block_put, and whether it broadcasts wait_for_free.
unfoldable pub block_put : ReadCache → ℕ → ReadCache × Bool
block_put c e =
    let c' = record c { uses = update c.uses e (c.uses e - 1) } in
    if c'.uses e == 0
    then (let c'' = record (insert_free_list c' e) { used = c'.used - 1 } in
        if c''.wait_free then (record c'' { wait_free = false }, true) else (c'', false))
    else (c', false)

-- What dump_cache prints.
unfoldable pub dump : ReadCache → ℕ × ℕ × ℕ × Bool
dump c = (c.max_buffers, c.count, c.used, is_set c.free.head)
