-- ===== src/Queue/Refine.antt =====
-- The ring of slots as the sequence of the pointers that it holds, oldest first.
use native.Mathlib.Nat.{mod-eq_of_lt, mod_self}
use native.Mathlib.Decide.{dec_lt}
use squashfs_tools.Common.{
  ℕ, zero, suc, ◌+◌, ◌-◌, ◌%◌, ◌≤◌, ◌<◌, ◌≡◌, ◌≢◌, ◌⊎◌, inl, inr, refl, ap, ◌↔◌, true, false,
  Option, none, some, List, [], ◌∷◌, ◌++◌, arith, length, get_or, set, if◌then◌else◌, leb,
}
use squashfs_tools.Common.{Bool-cases, get_or-set_self, get_or-set_ne}
use squashfs_tools.Queue.{Queue, next, put, get, empty, flush, dump, is_full}
use squashfs_tools.Queue.Inv.{IsValid, put-IsValid, get-IsValid}

-- The number of slots from the read to the write position, going round.
unfoldable pub count {ℓ} : {A : Type ℓ} → Queue A → ℕ
count q = if leb q.readp q.writep then q.writep - q.readp else q.size - q.readp + q.writep

-- Position `i` is `n` steps round from `p`.
abbrev IsAfter : ℕ → ℕ → ℕ → ℕ → Type 0
IsAfter size p n i = (p + n ≡ i) ⊎ (p + n ≡ i + size)

-- One step round.
step : (size p : ℕ) → p < size → (p + 1) % size ≡ (if leb size (p + 1) then 0 else p + 1)
step size p h = elim (dec_lt (p + 1) size) [
  | yes lt ↦ ground (arith, mod-eq_of_lt lt)
  | no ge ↦ let e : p + 1 ≡ size = omega arith in ground (arith, e, mod_self size)
]

IsAfter-step :
    (size p n i : ℕ)
    → p < size
    → i < size
    → suc n < size
    → IsAfter size p (suc n) i
    → IsAfter size ((p + 1) % size) n i × (p ≢ i) × (i ≢ p)
IsAfter-step size p n i hp hi hn a = ground (arith, step size p hp)

module _ {ℓ} {A : Type ℓ} (size : ℕ) where
  -- The `n` slots from position `p` on, going round at `size`.
  abbrev pub segment : List (Option A) → ℕ → ℕ → List (Option A)
  segment slots p zero = []
  segment slots p (suc n) = get_or slots p none ∷ segment slots ((p + 1) % size) n

  pub length-segment : (slots : List (Option A)) (p n : ℕ) → length (segment slots p n) ≡ n
  length-segment slots p zero = refl
  length-segment slots p (suc n) = ap suc (length-segment slots ((p + 1) % size) n)

  -- A write just behind a segment extends it.
  segment-set :
      (slots : List (Option A)) (v : Option A) (i p n : ℕ)
      → length slots ≡ size
      → i < size
      → p < size
      → n < size
      → IsAfter size p n i
      → segment (set slots i v) p (suc n) ≡ segment slots p n ++ (v ∷ [])
  segment-set slots v i p zero l hi hp hn a =
      let e : p ≡ i = omega arith in ground (arith, get_or-set_self slots i v none (omega arith), e)
  segment-set slots v i p (suc n) l hi hp hn a =
      let (a', ne, ne') = IsAfter-step size p n i hp hi hn a in
      rw (get_or-set_ne slots v none ne') (
        ap (λ (r : List (Option A)). get_or slots p none ∷ r)
          (segment-set slots v i ((p + 1) % size) n l hi (omega arith) (omega arith) a'))

module _ {ℓ} {A : Type ℓ} where
  -- The pointers in the queue, oldest first.
  abbrev pub contents : Queue A → List (Option A)
  contents q = segment q.size q.slots q.readp (count q)

  pub length-contents : (q : Queue A) → length (contents q) ≡ count q
  length-contents q = length-segment q.size q.slots q.readp (count q)

  -- Of the `size` slots one stays unused.
  pub count_bound : (q : Queue A) → IsValid q → count q < q.size
  unfolding count
  count_bound q v = ground arith

  pub is_full_iff : (q : Queue A) → IsValid q → (is_full q ≡ true) ↔ (count q + 1 ≡ q.size)
  unfolding count
  is_full_iff q v = (to, from)
    where
      s : next q q.writep ≡ (if leb q.size (q.writep + 1) then 0 else q.writep + 1)
      s = step q.size q.writep v.write_in

      to : is_full q ≡ true → count q + 1 ≡ q.size
      to h = ground (arith, s)

      from : count q + 1 ≡ q.size → is_full q ≡ true
      from h = ground (arith, s)

  pub empty_iff : (q : Queue A) → IsValid q → (empty q ≡ true) ↔ (count q ≡ 0)
  unfolding empty count
  empty_iff q v = (λ h. ground arith, λ h. ground arith)

module _ {ℓ} {A : Type ℓ} where
  -- The write position lies `count` steps behind the read position.
  write-IsAfter : (q : Queue A) → IsValid q → IsAfter q.size q.readp (count q) q.writep
  unfolding count
  write-IsAfter q v = ground arith

  count-put :
      (q : Queue A) (slots : List (Option A))
      → IsValid q
      → is_full q ≡ false
      → count (record q { slots = slots; writep = next q q.writep }) ≡ suc (count q)
  unfolding count
  count-put q slots v h = ground (arith, step q.size q.writep v.write_in)

  count-get :
      (q : Queue A)
      → IsValid q
      → empty q ≡ false
      → count q ≡ suc (count (record q { readp = next q q.readp }))
  unfolding empty count
  count-get q v h = ground (arith, step q.size q.readp v.read_in)

  -- On a well-formed queue, queue_put sleeps exactly when `size - 1` pointers are held; else it
  -- appends its pointer to those held.
  pub put_refines :
      (q : Queue A) (x : A)
      → IsValid q
      → ((put q x ≡ none) × (count q + 1 ≡ q.size))
        ⊎ ((q' : Queue A) × (put q x ≡ some q')
            × (count q + 1 < q.size)
            × (contents q' ≡ contents q ++ (some x ∷ [])))
  unfolding put
  put_refines q x v = elim (Bool-cases (is_full q)) [
    | inl full ↦ inl (rw full, (is_full_iff q v).0 full)
    | inr space ↦ inr (
      record q { slots = set q.slots q.writep (some x); writep = next q q.writep },
      rw space,
      ground (arith, is_full_iff q v, count_bound q v),
      rw (count-put q (set q.slots q.writep (some x)) v space) (
          segment-set q.size q.slots (some x) q.writep q.readp (count q) v.slots_len v.write_in
            v.read_in (count_bound q v) (write-IsAfter q v)),
    )
  ]

  -- On a well-formed queue, queue_get sleeps exactly when nothing is held; else it takes the
  -- oldest pointer.
  pub get_refines :
      (q : Queue A)
      → IsValid q
      → ((get q ≡ none) × (contents q ≡ []))
        ⊎ ((o : Option A) × (q' : Queue A) × (get q ≡ some (o, q'))
            × (contents q ≡ o ∷ contents q'))
  unfolding get
  get_refines q v = elim (Bool-cases (empty q)) [
    | inl none_held ↦ inl (rw none_held, rw ((empty_iff q v).0 none_held))
    | inr held ↦ inr (
      get_or q.slots q.readp none,
      record q { readp = next q q.readp },
      rw held,
      rw (count-get q v held),
    )
  ]

  pub count-flush : (q : Queue A) → count (flush q) ≡ 0
  unfolding flush count
  count-flush q = ground arith

  -- queue_flush drops all.
  pub contents-flush : (q : Queue A) → contents (flush q) ≡ []
  contents-flush q = rw (count-flush q)

  -- dump_queue prints the number of pointers held, and EMPTY and FULL where these are so.
  pub dump_lem :
      (q : Queue A)
      → IsValid q
      → ((dump q).1 ≡ length (contents q))
        × ((dump q).1 ≤ (dump q).0)
        × (((dump q).2 ≡ true) ↔ ((dump q).1 ≡ 0))
        × (((dump q).3 ≡ true) ↔ ((dump q).1 ≡ (dump q).0))
  unfolding dump count
  dump_lem q v = (
    ground (arith, length-contents q),
    ground (arith, count_bound q v),
    empty_iff q v,
    (
      λ h. omega (arith, (is_full_iff q v).0 h),
      λ h. (is_full_iff q v).1 (omega (arith, count_bound q v)),
    ),
  )

  -- The same, as numbers.
  pub put_counts :
      (q : Queue A) (x : A)
      → IsValid q
      → ((put q x ≡ none) × (count q + 1 ≡ q.size))
        ⊎ ((q' : Queue A) × (put q x ≡ some q')
            × IsValid q'
            × (count q' ≡ count q + 1)
            × (q'.size ≡ q.size))
  unfolding put
  put_counts q x v = elim (Bool-cases (is_full q)) [
    | inl full ↦ inl (rw full, (is_full_iff q v).0 full)
    | inr space ↦
        let s : List (Option A) = set q.slots q.writep (some x) in
        let q' : Queue A = record q { slots = s; writep = next q q.writep } in
        let e : put q x ≡ some q' = rw space in
        inr (q', e, put-IsValid q x v e, omega (arith, count-put q s v space), refl)
  ]

  pub get_counts :
      (q : Queue A)
      → IsValid q
      → ((get q ≡ none) × (count q ≡ 0))
        ⊎ ((o : Option A) × (q' : Queue A) × (get q ≡ some (o, q'))
            × IsValid q'
            × (count q ≡ count q' + 1)
            × (q'.size ≡ q.size))
  unfolding get
  get_counts q v = elim (Bool-cases (empty q)) [
    | inl none_held ↦ inl (rw none_held, (empty_iff q v).0 none_held)
    | inr held ↦
        let q' : Queue A = record q { readp = next q q.readp } in
        let e : get q ≡ some (get_or q.slots q.readp none, q') = rw held in
        inr (
          get_or q.slots q.readp none,
          q',
          e,
          get-IsValid q v e,
          omega (arith, count-get q v held),
          refl,
        )
  ]
