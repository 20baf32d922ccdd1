-- ===== src/Queue.antt =====
-- The bounded queue of squashfs-tools/caches-queues-lists.c: `struct queue` and its functions.
-- Each function runs under the queue's mutex, so it is one atomic step. A `none` stands for the
-- call that has to sleep in pthread_cond_wait. The state of the condition variables is in
-- Queue/Monitor.
pub mod Inv
pub mod Refine
pub mod Trace
pub mod Monitor
mod Tests
use squashfs_tools.Common.{
  ℕ, ◌+◌, ◌-◌, ◌*◌, ◌/◌, ◌%◌, ◌^◌, Bool, true, false, ◌||◌, Option, none, some, List, ltb, leb,
  ◌==◌, if◌then◌else◌, get_or, set, replicate,
}

-- INT_MAX.
abbrev pub int_max : ℕ
int_max = 2 ^ 31 - 1

-- sizeof(void *) on the 64-bit targets.
abbrev pub pointer_size : ℕ
pointer_size = 8

-- The guards of mksquashfs.c, at arguments that are not negative.
unfoldable pub add_overflow : ℕ → ℕ → Bool
add_overflow a b = ltb (int_max - a) b

unfoldable pub shift_overflow : ℕ → ℕ → Bool
shift_overflow a shift = ltb (int_max / 2 ^ shift) a

unfoldable pub multiply_overflow : ℕ → ℕ → Bool
multiply_overflow a multiplier = ltb (int_max / multiplier) a

-- `struct queue`. A slot that malloc left uninitialised is `none`.
pub record Queue {ℓ} (A : Type ℓ) : Type ℓ where
  pub size : ℕ
  pub readp : ℕ
  pub writep : ℕ
  pub slots : List (Option A)

module _ {ℓ} {A : Type ℓ} where
  -- queue_init; `none` is BAD_ERROR, which exits.
  pub init : ℕ → Option (Queue A)
  unfolding add_overflow multiply_overflow
  init size =
      if add_overflow size 1 || multiply_overflow (size + 1) pointer_size
      then none
      else some
          (record { size = size + 1; readp = 0; writep = 0; slots = replicate (size + 1) none })

  -- The index that follows `p`.
  abbrev pub next : Queue A → ℕ → ℕ
  next q p = (p + 1) % q.size

  -- The test of the loop of queue_put.
  abbrev pub is_full : Queue A → Bool
  is_full q = next q q.writep == q.readp

  -- queue_put.
  pub put : Queue A → A → Option (Queue A)
  put q x =
      if is_full q
      then none
      else some (record q { slots = set q.slots q.writep (some x); writep = next q q.writep })

  -- queue_empty.
  unfoldable pub empty : Queue A → Bool
  empty q = q.readp == q.writep

  -- queue_get: the slot that is read, and the queue after it.
  pub get : Queue A → Option (Option A × Queue A)
  unfolding empty
  get q =
      if empty q
      then none
      else some (get_or q.slots q.readp none, record q { readp = next q q.readp })

  -- queue_flush.
  pub flush : Queue A → Queue A
  flush q = record q { readp = q.writep }

  -- What dump_queue prints: the greatest size, the size, and whether it says EMPTY or FULL.
  pub dump : Queue A → ℕ × ℕ × Bool × Bool
  unfolding empty
  dump q = (
    q.size - 1,
    (if leb q.readp q.writep then q.writep - q.readp else q.size - q.readp + q.writep),
    empty q,
    is_full q,
  )
