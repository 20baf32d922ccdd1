-- ===== src/SeqQueue.antt =====
-- The sequence queue of squashfs-tools/caches-queues-lists.h and .c: `struct seq_queue`, from which
-- the buffers come out in the order of their sequence numbers. Each function runs under the mutex;
-- a `none` stands for the call that sleeps in pthread_cond_wait.
pub mod Inv
pub mod Order
pub mod Accounts
mod Tests
use squashfs_tools.Common.{
  ℕ, suc, ◌+◌, ◌-◌, Bool, true, false, Option, none, some, List, [], ◌∷◌, if◌then◌else◌, ◌==◌,
}
use squashfs_tools.Pointer.{Pointer}
use squashfs_tools.Hash.{Links, calculate_hash, insert, remove, find}

pub record SeqQueue : Type 0 where
  pub fragment_count : ℕ
  pub block_count : ℕ
  pub sequence : ℕ
  pub table : Links

-- All hash_table pointers NULL.
abbrev pub empty_buckets : ℕ → Pointer
empty_buckets b = none

-- seq_queue_init, with the link fields that the buffers have.
unfoldable pub init : Links → SeqQueue
init links = record {
  fragment_count = 0;
  block_count = 0;
  sequence = 0;
  table = record links { bucket = empty_buckets };
}

-- The fields of the buffers that the queue reads: `entry->sequence` and `entry->fragment`.
module _ (sequence : ℕ → ℕ) (fragment : ℕ → Bool) where
  -- CALCULATE_SEQ_HASH of an entry's sequence.
  abbrev pub seq_hash : ℕ → ℕ
  seq_hash e = calculate_hash (sequence e)

  -- seq_queue_put: the queue, and whether it signals `wait`.
  unfoldable pub put : SeqQueue → ℕ → SeqQueue × Bool
  put q e =
      let table = insert seq_hash q.table e in
      (
        (if fragment e
            then record q { fragment_count = q.fragment_count + 1; table = table }
            else record q { block_count = q.block_count + 1; table = table }),
        sequence e == q.sequence,
      )

  -- The search of seq_queue_get. There are at most as many entries in the chain as are counted.
  unfoldable pub lookup : SeqQueue → Pointer
  lookup q =
      find q.table.next (λ e. sequence e == q.sequence) (suc (q.fragment_count + q.block_count))
        (q.table.bucket (calculate_hash q.sequence))

  -- What seq_queue_get does with the entry that it found.
  unfoldable pub take : SeqQueue → ℕ → SeqQueue
  take q e =
      let q' =
        if fragment e
        then record q { fragment_count = q.fragment_count - 1 }
        else record q { block_count = q.block_count - 1 } in
      record q' { table = remove seq_hash q'.table e; sequence = q'.sequence + 1 }

  -- seq_queue_get.
  unfoldable pub get : SeqQueue → Option (ℕ × SeqQueue)
  get q = elim (lookup q) [ none ↦ none | some e ↦ some (e, take q e) ]

-- seq_queue_flush.
unfoldable pub flush : SeqQueue → SeqQueue
flush q = record q {
  fragment_count = 0;
  block_count = 0;
  table = record (q.table) { bucket = empty_buckets };
}

-- The size that dump_seq_queue prints, and whether it says EMPTY.
unfoldable pub dump : SeqQueue → Bool → ℕ × Bool
dump q fragment_queue =
    let size = if fragment_queue then q.fragment_count else q.block_count in (size, size == 0)
