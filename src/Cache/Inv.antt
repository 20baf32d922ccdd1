-- ===== src/Cache/Inv.antt =====
-- The invariant of a cache that does not shrink (`noshrink_lookup`), and what it means that a
-- buffer is on the free list.
use squashfs_tools.Common.{
  ℕ, suc, ◌+◌, ◌≤◌, ◌<◌, ◌≡◌, ◌≢◌, refl, ap, Bool, true, none, List, [], ◌∷◌, arith, length, All,
  All-map, All-In, Absent, Distinct, In,
}
use squashfs_tools.Common.Int.{ℤ, int_eq, int_eq_iff}
use squashfs_tools.Hash.Chain.{first}
use squashfs_tools.Hash.Contents.{Contents, find-Contents, empty-Contents}
use squashfs_tools.FreeList.Ring
use squashfs_tools.Cache.{Cache, cache_hash_of, index_hash, init, search_hash}

-- `free` are the buffers of the free list, the next to be reused first; `es` those in the hash
-- table, the newest first; `us` those that are allocated and not hashed.
pub record IsValid (c : Cache) (free es us : List ℕ) : Type 0 where
  pub keeps : c.noshrink_lookup ≡ true
  pub ring : Ring.Represents c.free free
  pub table : Contents (cache_hash_of c.index) c.table es
  -- A buffer on the free list is unused and still in the hash table, and so is found by a lookup.
  pub idle : All (λ e. (c.uses e ≡ 0) × In e es) free
  -- A buffer in the hash table that is unused is on the free list.
  pub busy : All (λ e. c.uses e ≡ 0 → In e free) es
  pub allocated : All (λ e. e < c.fresh) es × All (λ e. e < c.fresh) us
  pub owners : All (λ e. c.owned e ≡ true) es × All (λ e. c.owned e ≡ true) us
  pub apart : All (λ e. Absent e es × (c.uses e ≢ 0)) us
  -- Every buffer is counted, and those in use are counted by `used`.
  pub total : length es + length us ≡ c.count
  pub in_use : c.used + length free ≡ c.count
  pub bounded : c.count ≤ c.max_buffers

-- cache_init gives an empty cache.
pub init-IsValid :
    (memory : Cache) (buffer_size max_buffers : ℕ) (first_freelist : Bool)
    → IsValid (init memory buffer_size max_buffers true first_freelist) [] [] []
unfolding init
init-IsValid memory buffer_size max_buffers first_freelist = record {
  keeps = refl;
  ring = refl;
  table =
      empty-Contents (cache_hash_of memory.index) (record (memory.table) { bucket = λ b. none })
        (λ b. refl);
  idle = tt;
  busy = tt;
  allocated = (tt, tt);
  owners = (tt, tt);
  apart = tt;
  total = omega arith;
  in_use = omega arith;
  bounded = omega arith;
}

module _ (c : Cache) (free es us : List ℕ) (v : IsValid c free es us) where
  -- The search of the hash table finds the newest buffer with the index.
  pub search_hash_lem : (i : ℤ) → search_hash c i ≡ first (λ e. int_eq (c.index e) i) es
  unfolding search_hash
  search_hash_lem i =
      find-Contents (cache_hash_of c.index) c.table es (λ e. int_eq (c.index e) i) (index_hash i)
        (suc c.count) v.table (λ x t. ap index_hash ((int_eq_iff (c.index x) i).0 t))
        (omega (arith, v.total))

  Represents-Distinct : (xs : List ℕ) → Ring.Represents c.free xs → Distinct xs
  Represents-Distinct [] r = tt
  Represents-Distinct (x ∷ xs) r = r.2

  pub free-Distinct : Distinct free
  free-Distinct = Represents-Distinct free v.ring

  -- A buffer that is not allocated is in no list.
  pub fresh-Absent : (e : ℕ) → c.fresh ≤ e → Absent e es × Absent e us × Absent e free
  fresh-Absent e h =
      let out : (x : ℕ) → x < c.fresh → e ≢ x = λ x lt q. omega arith in
      (
        All-map (λ x. x < c.fresh) (λ x. e ≢ x) es out v.allocated.0,
        All-map (λ x. x < c.fresh) (λ x. e ≢ x) us out v.allocated.1,
        All-map (λ x. (c.uses x ≡ 0) × In x es) (λ x. e ≢ x) free
            (λ x p. out x (All-In (λ y. y < c.fresh) x es v.allocated.0 p.1)) v.idle,
      )

  -- A buffer outside the hash table is not on the free list, and differs from all inside it.
  pub unhashed-Absent : (e : ℕ) → Absent e es → Absent e free
  unhashed-Absent e a =
      All-map (λ x. (c.uses x ≡ 0) × In x es) (λ x. e ≢ x) free
        (λ x p. All-In (λ y. e ≢ y) x es a p.1) v.idle
