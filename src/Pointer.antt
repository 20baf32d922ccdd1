-- ===== src/Pointer.antt =====
-- Pointers to the buffers of the caches and queues: an address is a number, NULL is `none`.
use squashfs_tools.Common.{ℕ, ◌==◌, Bool, true, false, Option, none, some, update, ◌≡◌, ◌≢◌}

abbrev pub Pointer : Type 0
Pointer = Option ℕ

-- Two pointers are equal.
abbrev pub same : Pointer → Pointer → Bool
same none none = true
same none (some b) = false
same (some a) none = false
same (some a) (some b) = a == b

-- A pointer is not NULL.
abbrev pub is_set : Pointer → Bool
is_set none = false
is_set (some a) = true

-- A write through a pointer; through NULL none is made.
abbrev pub update_at {ℓ} : {A : Type ℓ} → Pointer → (ℕ → A) → A → ℕ → A
update_at none f v = f
update_at (some a) f v = update f a v

-- What taking `e` out of a doubly linked list leaves in the link fields of the other entries: its
-- predecessor and its successor are joined.
pub record IsJoined (next prev next' prev' : ℕ → Pointer) (e : ℕ) : Type 0 where
  pub next_same : (x : ℕ) → x ≢ e → prev e ≢ some x → next' x ≡ next x
  pub next_joined : (x : ℕ) → x ≢ e → prev e ≡ some x → next' x ≡ next e
  pub prev_same : (x : ℕ) → x ≢ e → next e ≢ some x → prev' x ≡ prev x
  pub prev_joined : (x : ℕ) → x ≢ e → next e ≡ some x → prev' x ≡ prev e
