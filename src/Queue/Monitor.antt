-- ===== src/Queue/Monitor.antt =====
-- The condition variables of the queue. A thread that finds the queue full sleeps on `full`, one
-- that finds it empty sleeps on `empty`; a signal moves one sleeper to the threads that wake and
-- test the queue again.
use squashfs_tools.Common.{
  ℕ, ◌+◌, ◌-◌, ◌≤◌, ◌<◌, ◌≡◌, ◌⊎◌, inl, inr, refl, none, some, arith, ltb, if◌then◌else◌,
}
use squashfs_tools.Queue.{Queue, put, get, flush}
use squashfs_tools.Queue.Inv.{IsValid}
use squashfs_tools.Queue.Refine.{count, put_counts, get_counts, count-flush}

-- The threads at a condition variable.
pub record Cond : Type 0 where
  pub sleeping : ℕ
  pub woken : ℕ

pub record Monitor {ℓ} (A : Type ℓ) : Type ℓ where
  pub queue : Queue A
  pub full : Cond
  pub empty : Cond

-- pthread_cond_wait.
pub sleep : Cond → Cond
sleep c = record c { sleeping = c.sleeping + 1 }

-- pthread_cond_signal: it wakes a sleeper, if there is one.
pub signal : Cond → Cond
signal c = if ltb 0 c.sleeping then record { sleeping = c.sleeping - 1; woken = c.woken + 1 } else c

-- A woken thread leaves the wait with the mutex.
pub resume : Cond → Cond
resume c = record c { woken = c.woken - 1 }

module _ {ℓ} {A : Type ℓ} where
  -- One pass of the loop of queue_put, with the mutex held.
  pub put_pass : Monitor A → A → Monitor A
  put_pass m x = elim (put m.queue x) [
    | none ↦ record m { full = sleep m.full }
    | some q ↦ record m { queue = q; empty = signal m.empty }
  ]

  -- One pass of the loop of queue_get.
  pub get_pass : Monitor A → Monitor A
  get_pass m = elim (get m.queue) [
    | none ↦ record m { empty = sleep m.empty }
    | some (o, q) ↦ record m { queue = q; full = signal m.full }
  ]

  -- queue_flush signals nobody.
  pub flush_pass : Monitor A → Monitor A
  flush_pass m = record m { queue = flush m.queue }

  -- What can happen next: a call begins, a woken thread tests again, or a sleeper wakes by itself,
  -- as POSIX allows.
  pub data Step (m : Monitor A) : Monitor A → Type ℓ where
    put_begins : (x : A) → Step m (put_pass m x)
    get_begins : Step m (get_pass m)
    put_wakes : (x : A) → 0 < m.full.woken → Step m (put_pass (record m { full = resume m.full }) x)
    get_wakes : 0 < m.empty.woken → Step m (get_pass (record m { empty = resume m.empty }))
    spurious_full : 0 < m.full.sleeping → Step m (record m { full = signal m.full })
    spurious_empty : 0 < m.empty.sleeping → Step m (record m { empty = signal m.empty })

  pub data Reach (m : Monitor A) : Monitor A → Type ℓ where
    here : Reach m m
    after : {n o : Monitor A} → Reach m n → Step n o → Reach m o

-- No wakeup is lost: while a consumer sleeps, each pointer in the queue has a consumer that is
-- woken and will test for it; while a producer sleeps, so has each free slot.
pub record IsLive {ℓ} {A : Type ℓ} (m : Monitor A) : Type 0 where
  pub valid : IsValid m.queue
  pub consumers : (m.empty.sleeping ≡ 0) ⊎ (count m.queue ≤ m.empty.woken)
  pub producers : (m.full.sleeping ≡ 0) ⊎ (m.queue.size - 1 - count m.queue ≤ m.full.woken)

module _ {ℓ} {A : Type ℓ} where
  -- The thread that makes the pass may itself be the one that was woken.
  put_pass-IsLive :
      (m : Monitor A) (x : A)
      → IsValid m.queue
      → (m.empty.sleeping ≡ 0) ⊎ (count m.queue ≤ m.empty.woken)
      → (m.full.sleeping ≡ 0) ⊎ (m.queue.size - 1 - count m.queue ≤ m.full.woken + 1)
      → IsLive (put_pass m x)
  unfolding put_pass sleep signal
  put_pass-IsLive m x valid c p = elim (put_counts m.queue x valid) [
    | inl (e, full) ↦ rw (e, put_pass) (ground arith)
    | inr (q, e, v, n, s) ↦ rw (e, put_pass) (ground arith)
  ]

  get_pass-IsLive :
      (m : Monitor A)
      → IsValid m.queue
      → (m.empty.sleeping ≡ 0) ⊎ (count m.queue ≤ m.empty.woken + 1)
      → (m.full.sleeping ≡ 0) ⊎ (m.queue.size - 1 - count m.queue ≤ m.full.woken)
      → IsLive (get_pass m)
  unfolding get_pass sleep signal
  get_pass-IsLive m valid c p = elim (get_counts m.queue valid) [
    | inl (e, held) ↦ rw (e, get_pass) (ground arith)
    | inr (o, q, e, v, n, s) ↦ rw (e, get_pass) (ground arith)
  ]

  Step-IsLive : {m n : Monitor A} → Step m n → IsLive m → IsLive n
  unfolding resume signal
  Step-IsLive {m} (put_begins x) l = put_pass-IsLive m x l.valid l.consumers (omega arith)
  Step-IsLive {m} get_begins l = get_pass-IsLive m l.valid (omega arith) l.producers
  Step-IsLive {m} (put_wakes x h) l =
      put_pass-IsLive (record m { full = resume m.full }) x l.valid l.consumers (omega arith)
  Step-IsLive {m} (get_wakes h) l =
      get_pass-IsLive (record m { empty = resume m.empty }) l.valid (omega arith) l.producers
  Step-IsLive (spurious_full h) l = ground arith
  Step-IsLive (spurious_empty h) l = ground arith

  -- Without queue_flush no wakeup is lost: in whatever state the threads can reach from a live
  -- one, a consumer that sleeps leaves no pointer without a woken consumer, nor a producer that
  -- sleeps a free slot without a woken producer.
  pub Reach-IsLive : {m n : Monitor A} → IsLive m → Reach m n → IsLive n
  Reach-IsLive l here = l
  Reach-IsLive l (after r st) = Step-IsLive st (Reach-IsLive l r)

  -- queue_flush loses a wakeup: where producers sleep on the full condition and none of them is
  -- woken, in a queue of two slots or more, they go on sleeping with none of them woken, though
  -- there is room again.
  pub flush_loses_wakeup :
      (m : Monitor A)
      → 2 ≤ m.queue.size
      → 0 < m.full.sleeping
      → m.full.woken ≡ 0
      → ((flush_pass m).full ≡ m.full) × ¬ (IsLive (flush_pass m))
  unfolding flush_pass flush
  flush_loses_wakeup m h s w = (refl, λ l. omega (arith, l.producers, count-flush m.queue))
