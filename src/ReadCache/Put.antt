-- ===== src/ReadCache/Put.antt =====
-- cache_block_put, cache_block_ready and cache_block_wait of unsquashfs.
use mathlib.Core.Path.{subst}
use native.Mathlib.Decide.{ℕ_discrete, dec_le}
use squashfs_tools.Common.{
  ℕ, ◌+◌, ◌-◌, ◌≤◌, ◌<◌, ◌≡◌, ◌≢◌, ◌⊎◌, inl, inr, refl, sym, ap, ◌∙◌, Bool, true, false, List, [],
  ◌∷◌, ◌++◌, arith, length, length-append, All-map, All-append, Absent, In, In-front, In-middle,
  length-le_of_In, update, update_ne, Bool-cases,
}
use squashfs_tools.FreeList
use squashfs_tools.FreeList.Insert
use squashfs_tools.ReadCache.{ReadCache, block_put, block_ready, block_wait, find_block}
use squashfs_tools.ReadCache.Inv.{IsValid, free-Distinct}

module _ (c : ReadCache) (free es : List ℕ) (v : IsValid c free es) (e : ℕ) (i : In e es) where
  -- A buffer in use is not on the free list.
  in_use-Absent : 0 < c.uses e → Absent e free
  in_use-Absent h =
      All-map (λ x. (c.uses x ≡ 0) × In x es) (λ x. e ≢ x) free (λ x p q. ground (arith, p.0, q, h))
        v.idle

  -- So the free list does not hold all buffers, and `used` is not 0.
  used_buffers : Absent e free → length free + 1 ≤ length es
  used_buffers out = omega (
    arith,
    length-le_of_In (e ∷ free) es (out, free-Distinct c free es v)
        (i, All-map (λ x. (c.uses x ≡ 0) × In x es) (λ x. In x es) free (λ x p. p.1) v.idle),
  )

  uses' : ℕ → ℕ
  uses' = update c.uses e (c.uses e - 1)

  last-IsValid :
      (w : Bool)
      → c.uses e ≡ 1
      → IsValid
          (record c {
            uses = uses';
            free = FreeList.insert c.free e;
            used = c.used - 1;
            wait_free = w;
          })
          (free ++ (e ∷ []))
          es
  unfolding uses'
  last-IsValid w one =
      let out : Absent e free = in_use-Absent (omega arith) in
      record {
        ring = Insert.insert-Represents c.free e free v.ring out;
        table = v.table;
        unique = v.unique;
        idle =
            All-append (λ x. (uses' x ≡ 0) × In x es) free (e ∷ [])
              (All-map (λ x. (c.uses x ≡ 0) × In x es) (λ x. (uses' x ≡ 0) × In x es) free
                (λ x p. (ground (arith, p.0, one), p.1)) v.idle)
              ((ground (arith, one), i), tt);
        busy =
            All-map (λ x. c.uses x ≡ 0 → In x free) (λ x. uses' x ≡ 0 → In x (free ++ (e ∷ []))) es
              (λ x f q. elim (ℕ_discrete e x) [
                | yes p ↦ subst (λ y. In y (free ++ (e ∷ []))) p (In-middle e free [])
                | no n ↦ In-front x free (e ∷ []) (f (sym (update_ne c.uses e _ x n) ∙ q))
              ])
              v.busy;
        allocated = v.allocated;
        total = v.total;
        in_use = omega (arith, v.in_use, v.total, used_buffers out, length-append free (e ∷ []));
        bounded = v.bounded;
      }

  more-IsValid : 1 < c.uses e → IsValid (record c { uses = uses' }) free es
  unfolding uses'
  more-IsValid more = record {
    ring = v.ring;
    table = v.table;
    unique = v.unique;
    idle =
        All-map (λ x. (c.uses x ≡ 0) × In x es) (λ x. (uses' x ≡ 0) × In x es) free
          (λ x p. (ground (arith, p.0, more), p.1)) v.idle;
    busy =
        All-map (λ x. c.uses x ≡ 0 → In x free) (λ x. uses' x ≡ 0 → In x free) es
          (λ x f q. f (ground (arith, q, more))) v.busy;
    allocated = v.allocated;
    total = v.total;
    in_use = v.in_use;
    bounded = v.bounded;
  }

module _ (c : ReadCache) (e : ℕ) where
  put_last :
      c.uses e ≡ 1
      → block_put c e ≡ (
        record c {
          uses = update c.uses e (c.uses e - 1);
          free = FreeList.insert c.free e;
          used = c.used - 1;
          wait_free = false;
        },
        c.wait_free,
      )
  unfolding block_put
  put_last one = elim (Bool-cases c.wait_free) [
    | inl waiting ↦ rw waiting (ground (arith, waiting))
    | inr quiet ↦ rw quiet (ground (arith, quiet))
  ]

  put_more :
      1 < c.uses e → block_put c e ≡ (record c { uses = update c.uses e (c.uses e - 1) }, false)
  unfolding block_put
  put_more more = ground (arith)

  -- Its buffers stay in the hash table, and are found there.
  find_block-block_put : (b : ℕ) → 0 < c.uses e → find_block (block_put c e).0 b ≡ find_block c b
  unfolding find_block
  find_block-block_put b used = elim (dec_le (c.uses e) 1) [
    | yes one ↦ rw (put_last (omega arith)) refl
    | no more ↦ rw (put_more (omega arith)) refl
  ]

-- cache_block_put of unsquashfs, for a buffer with users in a well-formed cache: the last user
-- leaves it without users and puts it at the end of the free list, and those that wait for a
-- buffer are woken up; of more, one is counted off, and nothing else changes. A search finds what
-- it found before, and the cache stays well formed.
pub put_answer :
    (c : ReadCache) (free es : List ℕ) (e b : ℕ)
    → IsValid c free es
    → In e es
    → 0 < c.uses e
    → (find_block (block_put c e).0 b ≡ find_block c b)
      × (((c.uses e ≡ 1)
            × ((block_put c e).0.uses ≡ update c.uses e 0)
            × ((block_put c e).1 ≡ c.wait_free)
            × ((block_put c e).0.wait_free ≡ false)
            × IsValid (block_put c e).0 (free ++ (e ∷ [])) es)
          ⊎ ((1 < c.uses e)
              × (block_put c e ≡ (record c { uses = update c.uses e (c.uses e - 1) }, false))
              × IsValid (block_put c e).0 free es))
unfolding uses'
put_answer c free es e b v i used = (
  find_block-block_put c e b used,
  elim (dec_le (c.uses e) 1) [
    | yes one ↦
        let one : c.uses e ≡ 1 = omega arith in
        inl (
          one,
          rw (put_last c e one) (ap (λ n. update c.uses e (n - 1)) one),
          rw (put_last c e one) refl,
          rw (put_last c e one) refl,
          rw (put_last c e one) (last-IsValid c free es v e i false one),
        )
    | no more ↦
        let more : 1 < c.uses e = omega arith in
        inr (more, put_more c e more, rw (put_more c e more) (more-IsValid c free es v e i more))
  ],
)

wait_sleeps :
    (c : ReadCache) (e : ℕ)
    → c.pending e ≡ true
    → block_wait c e ≡ (record c { wait_pending = true }, true)
unfolding block_wait
wait_sleeps c e h = rw h refl

wait_passes : (c : ReadCache) (e : ℕ) → c.pending e ≡ false → block_wait c e ≡ (c, false)
unfolding block_wait
wait_passes c e h = rw h refl

-- A thread that finds a buffer of unsquashfs pending sleeps; cache_block_ready wakes it up, and
-- it then sees the buffer ready, with the error that the reader found.
pub block_ready-block_wait :
    (c : ReadCache) (e : ℕ) (error : Bool)
    → c.pending e ≡ true
    → ((block_wait c e).1 ≡ true)
      × ((block_ready (block_wait c e).0 e error).1 ≡ true)
      × (block_wait (block_ready (block_wait c e).0 e error).0 e
          ≡ ((block_ready (block_wait c e).0 e error).0, false))
      × ((block_ready (block_wait c e).0 e error).0.error e ≡ error)
unfolding block_ready block_wait
block_ready-block_wait c e error h = rw (wait_sleeps c e h) (
  refl,
  refl,
  wait_passes (block_ready (record c { wait_pending = true }) e error).0 e (ground arith),
  ground arith,
)
