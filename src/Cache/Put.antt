-- ===== src/Cache/Put.antt =====
-- cache_block_put, cache_unlock and cache_wait_unlock on a cache that does not shrink.
use mathlib.Core.Path.{subst}
use native.Mathlib.Decide.{ℕ_discrete}
use squashfs_tools.Common.{
  ℕ, ◌+◌, ◌-◌, ◌%◌, ◌≤◌, ◌<◌, ◌≡◌, ◌≢◌, ◌⊎◌, inl, inr, refl, sym, ap, ◌∙◌, Bool, true, false, none,
  some, List, [], ◌∷◌, ◌++◌, arith, length, length-append, All, All-map, All-append, All-In, Absent,
  In, In-front, In-middle, length-le_of_In, update, update_ne, ◌==◌, Bool-cases,
}
use squashfs_tools.Common.Int.{ℤ}
use squashfs_tools.FreeList
use squashfs_tools.FreeList.Insert
use squashfs_tools.Cache.{Cache, block_put, unlock, wait_unlock, search_hash}
use squashfs_tools.Cache.Inv.{IsValid, free-Distinct}

module _ (c : Cache) (free es us : List ℕ) (v : IsValid c free es us) (e : ℕ) (i : In e es) where
  owned : c.owned e ≡ true
  owned = All-In (λ x. c.owned x ≡ true) e es v.owners.0 i

  block_put_last :
      c.uses e ≡ 1
      → block_put c (some e) ≡ (
        record c {
          uses = update c.uses e ((c.uses e + 255) % 256);
          free = FreeList.insert c.free e;
          used = c.used - 1;
        },
        true,
      )
  unfolding block_put
  block_put_last one = ground (arith, owned, v.keeps)

  block_put_more :
      1 < c.uses e
      → c.uses e < 256
      → block_put c (some e) ≡ (record c { uses = update c.uses e ((c.uses e + 255) % 256) }, false)
  unfolding block_put
  block_put_more more lim = ground (arith, owned)

  uses' : ℕ → ℕ
  uses' = update c.uses e ((c.uses e + 255) % 256)

  apart_after : All (λ x. Absent x es × (uses' x ≢ 0)) us
  unfolding uses'
  apart_after =
      All-map (λ x. Absent x es × (c.uses x ≢ 0)) (λ x. Absent x es × (uses' x ≢ 0)) us
        (λ x p. (p.0, λ q. ground (arith, All-In (λ y. x ≢ y) e es p.0 i, p.1, q))) v.apart

  -- A buffer in use is not on the free list.
  in_use-Absent : 0 < c.uses e → Absent e free
  in_use-Absent h =
      All-map (λ x. (c.uses x ≡ 0) × In x es) (λ x. e ≢ x) free (λ x p q. ground (arith, p.0, q, h))
        v.idle

  -- So the free list does not hold all buffers, and `used` is not 0.
  used_buffers : Absent e free → length free + 1 ≤ length es
  used_buffers out = omega (
    arith,
    length-le_of_In (e ∷ free) es (out, free-Distinct c free es us v)
        (i, All-map (λ x. (c.uses x ≡ 0) × In x es) (λ x. In x es) free (λ x p. p.1) v.idle),
  )

  last-IsValid :
      c.uses e ≡ 1
      → IsValid
          (record c { uses = uses'; free = FreeList.insert c.free e; used = c.used - 1 })
          (free ++ (e ∷ []))
          es
          us
  unfolding uses'
  last-IsValid one =
      let out : Absent e free = in_use-Absent (omega arith) in
      record {
        keeps = v.keeps;
        ring = Insert.insert-Represents c.free e free v.ring out;
        table = v.table;
        idle =
            All-append (λ x. (uses' x ≡ 0) × In x es) free (e ∷ [])
              (All-map (λ x. (c.uses x ≡ 0) × In x es) (λ x. (uses' x ≡ 0) × In x es) free
                (λ x p. (ground (arith, p.0, one), p.1)) v.idle)
              ((ground (arith, one), i), tt);
        busy =
            All-map (λ x. c.uses x ≡ 0 → In x free) (λ x. uses' x ≡ 0 → In x (free ++ (e ∷ []))) es
              (λ x f q. elim (ℕ_discrete e x) [
                | yes p ↦ subst (λ y. In y (free ++ (e ∷ []))) p (In-middle e free [])
                | no n ↦ In-front x free (e ∷ []) (f (sym (update_ne c.uses e _ x n) ∙ q))
              ])
              v.busy;
        allocated = v.allocated;
        owners = v.owners;
        apart = apart_after;
        total = v.total;
        in_use = omega (arith, v.in_use, v.total, used_buffers out, length-append free (e ∷ []));
        bounded = v.bounded;
      }

  more-IsValid : 1 < c.uses e → c.uses e < 256 → IsValid (record c { uses = uses' }) free es us
  unfolding uses'
  more-IsValid more lim = record {
    keeps = v.keeps;
    ring = v.ring;
    table = v.table;
    idle =
        All-map (λ x. (c.uses x ≡ 0) × In x es) (λ x. (uses' x ≡ 0) × In x es) free
          (λ x p. (ground (arith, p.0, more), p.1)) v.idle;
    busy =
        All-map (λ x. c.uses x ≡ 0 → In x free) (λ x. uses' x ≡ 0 → In x free) es
          (λ x f q. f (ground (arith, q, more, lim))) v.busy;
    allocated = v.allocated;
    owners = v.owners;
    apart = apart_after;
    total = v.total;
    in_use = v.in_use;
    bounded = v.bounded;
  }

  -- cache_block_put of a hashed buffer with 1 to 255 users, in a well-formed cache that does
  -- not shrink: the last user puts it at the end of the free list and signals; others only
  -- count down. Either way it stays in the hash table and the cache is well formed.
  pub block_put_cases :
      0 < c.uses e
      → c.uses e < 256
      → ((c.uses e ≡ 1)
          × ((block_put c (some e)).1 ≡ true)
          × IsValid (block_put c (some e)).0 (free ++ (e ∷ [])) es us)
        ⊎ ((1 < c.uses e)
            × ((block_put c (some e)).1 ≡ false)
            × IsValid (block_put c (some e)).0 free es us
            × ((block_put c (some e)).0.uses e ≡ c.uses e - 1))
  unfolding uses'
  block_put_cases h lim = elim (Bool-cases (c.uses e == 1)) [
    | inl one ↦
        let o : c.uses e ≡ 1 = ground (arith, one) in
        let eq = block_put_last o in
        inl (
          o,
          ap (λ r. r.1) eq,
          subst (λ r. IsValid r (free ++ (e ∷ [])) es us) (ap (λ r. r.0) (sym eq)) (last-IsValid o),
        )
    | inr several ↦
        let m : 1 < c.uses e = ground (arith, several) in
        let eq = block_put_more m lim in
        inr (
          m,
          ap (λ r. r.1) eq,
          subst (λ r. IsValid r free es us) (ap (λ r. r.0) (sym eq)) (more-IsValid m lim),
          rw eq (ground arith),
        )
  ]

  -- For a hashed buffer with 1 to 255 users in a well-formed cache that does not shrink, a
  -- lookup finds after cache_block_put what it found before, so a buffer that nobody uses can
  -- be used again until it is reused.
  pub search_hash-block_put :
      (j : ℤ)
      → 0 < c.uses e
      → c.uses e < 256
      → search_hash (block_put c (some e)).0 j ≡ search_hash c j
  unfolding search_hash
  search_hash-block_put j h lim = elim (Bool-cases (c.uses e == 1)) [
    | inl one ↦ ap (λ (r : Cache × Bool). search_hash r.0 j) (block_put_last (ground (arith, one)))
    | inr several ↦
        ap (λ (r : Cache × Bool). search_hash r.0 j) (block_put_more (ground (arith, several)) lim)
  ]

-- A buffer that is no cache's is only freed, and NULL is ignored.
pub block_put_other :
    (c : Cache) (e : ℕ)
    → c.owned e ≡ false
    → (block_put c (some e) ≡ (c, false)) × (block_put c none ≡ (c, false))
unfolding block_put
block_put_other c e h = (ground (arith, h), refl)

-- A thread that finds a buffer locked sleeps, and cache_unlock then wakes it up; after
-- cache_unlock of a locked buffer no thread sleeps on it, and none is marked to be woken.
pub unlock-wait_unlock :
    (c : Cache) (e : ℕ)
    → c.locked e ≡ true
    → ((wait_unlock c e).1 ≡ true)
      × ((unlock (wait_unlock c e).0 e).1 ≡ true)
      × ((wait_unlock (unlock c e).0 e).1 ≡ false)
      × ((unlock c e).0.wait_on_unlock e ≡ false)
unfolding wait_unlock unlock
unlock-wait_unlock c e h = (ground arith, ground arith, ground arith, ground arith)
