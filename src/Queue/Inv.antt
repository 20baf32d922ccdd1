-- ===== src/Queue/Inv.antt =====
-- The representation invariant of `struct queue`.
use squashfs_tools.Common.{
  ℕ, ◌+◌, ◌*◌, ◌≤◌, ◌<◌, ◌≡◌, Option, none, some, arith, ◌⊎◌, inl, inr, refl, ◌||◌, replicate,
  Bool-cases, length, length-set, length-replicate,
}
use squashfs_tools.Queue.{
  add_overflow, multiply_overflow, Queue, int_max, pointer_size, init, put, get, flush,
}

pub record IsValid {ℓ} {A : Type ℓ} (q : Queue A) : Type 0 where
  pub fits : q.size * pointer_size ≤ int_max
  pub slots_len : length q.slots ≡ q.size
  pub read_in : q.readp < q.size
  pub write_in : q.writep < q.size

module _ {ℓ} {A : Type ℓ} where
  -- queue_init exits exactly when the array of `n + 1` pointers has more bytes than an int can
  -- say; else the queue is well formed and empty, and has `n + 1` slots.
  pub init_cases :
      (n : ℕ)
      → (init {A = A} n ≡ none) × (int_max < (n + 1) * pointer_size)
        ⊎ ((q : Queue A) × (init n ≡ some q) × IsValid q × (q.size ≡ n + 1) × (q.readp ≡ q.writep))
  unfolding init
  init_cases n = elim (Bool-cases (add_overflow n 1 || multiply_overflow (n + 1) pointer_size)) [
    | inl over ↦ inl (rw over, ground arith)
    | inr room ↦ inr (
      record { size = n + 1; readp = 0; writep = 0; slots = replicate (n + 1) none },
      rw room,
      ground (arith, length-replicate {A = Option A} (n + 1) none),
      refl,
      refl,
    )
  ]

  pub put-IsValid :
      (q : Queue A) (x : A) {q' : Queue A} → IsValid q → put q x ≡ some q' → IsValid q'
  unfolding put
  put-IsValid q x v h = ground (arith, length-set q.slots q.writep (some x))

  pub get-IsValid :
      (q : Queue A) {o : Option A} {q' : Queue A} → IsValid q → get q ≡ some (o, q') → IsValid q'
  unfolding get
  get-IsValid q v h = ground arith

  pub flush-IsValid : (q : Queue A) → IsValid q → IsValid (flush q)
  unfolding flush
  flush-IsValid q v = ground arith
