-- ===== src/Cache/Get.antt =====
-- cache_get, cache_get_nohash, cache_get_nowait and cache_hash on a cache that does not shrink.
use mathlib.Core.Path.{subst₂}
use squashfs_tools.Common.{
  ℕ, ◌≤◌, ◌<◌, ◌≡◌, ◌≢◌, ◌⊎◌, inl, inr, sym, ap, ◌∙◌, Bool, true, false, none, some, List, [], ◌∷◌,
  ◌++◌, arith, length-append, All, All-map, All-zip, All-drop, All-right, All-In, Absent, In,
  update, update_ne,
}
use squashfs_tools.Common.Int.{ℤ, int_eq, int_eq_iff}
use squashfs_tools.Hash.Contents.{insert-Contents, Contents-cong}
use squashfs_tools.Cache.{
  Cache, cache_hash_of, index_hash, pick, start_entry, hash_entry, get_entry, get, get_nowait,
  lookup,
}
use squashfs_tools.Cache.Inv.{IsValid, search_hash_lem}
use squashfs_tools.Cache.Pick.{IsPicked, IsChoice, pick_cases}
use squashfs_tools.Cache.Lookup.{lookup-some}
use squashfs_tools.Hash.Chain.{first}

module _ (c : Cache) (free es us : List ℕ) (e : ℕ) (v : IsPicked c free es us e) where
  -- The chosen buffer starts in use and outside the hash table.
  start-IsValid : (is_locked : Bool) → IsValid (start_entry c e is_locked) free es (e ∷ us)
  unfolding start_entry
  start-IsValid is_locked = record {
    keeps = v.keeps;
    ring = v.ring;
    table = v.table;
    idle =
        All-map (λ x. (c.uses x ≡ 0) × In x es) (λ x. (update c.uses e 1 x ≡ 0) × In x es) free
          (λ x p. (update_ne c.uses e 1 x (All-In (λ y. e ≢ y) x es v.out.0 p.1) ∙ p.0, p.1))
          v.idle;
    busy =
        All-map (λ x. c.uses x ≡ 0 → In x free) (λ x. update c.uses e 1 x ≡ 0 → In x free) es
          (λ x f q. f (ground (arith, q))) v.busy;
    allocated = (v.allocated.0, (v.allocated.2, v.allocated.1));
    owners = (v.owners.0, (v.owners.2, v.owners.1));
    apart = (
      (v.out.0, λ q. ground (arith, q)),
      All-map (λ x. Absent x es × (c.uses x ≢ 0)) (λ x. Absent x es × (update c.uses e 1 x ≢ 0)) us
          (λ x p. (p.0, λ q. ground (arith, q, p.1))) v.apart,
    );
    total = omega (arith, v.total);
    in_use = v.in_use;
    bounded = v.bounded;
  }

module _ (c : Cache) (free es fs bs : List ℕ) (e : ℕ) (i : ℤ)
    (v : IsValid c free es (fs ++ (e ∷ bs))) where
  unhashed : All (λ x. Absent x es × (c.uses x ≢ 0)) (e ∷ bs)
  unhashed = All-right (λ x. Absent x es × (c.uses x ≢ 0)) fs (e ∷ bs) v.apart

  -- cache_hash moves a buffer that is not hashed to the front of the hash table, under its index.
  pub hash_entry-IsValid : Absent e (fs ++ bs) → IsValid (hash_entry c e i) free (e ∷ es) (fs ++ bs)
  unfolding hash_entry
  hash_entry-IsValid once = record {
    keeps = v.keeps;
    ring = v.ring;
    table =
        insert-Contents (cache_hash_of (update c.index e i)) c.table e es
          (Contents-cong (cache_hash_of c.index) (cache_hash_of (update c.index e i)) c.table es
            (All-map (λ x. e ≢ x)
              (λ x. cache_hash_of (update c.index e i) x ≡ cache_hash_of c.index x) es
              (λ x ne. ap index_hash (update_ne c.index e i x ne)) unhashed.0.0)
            v.table)
          unhashed.0.0;
    idle =
        All-map (λ x. (c.uses x ≡ 0) × In x es) (λ x. (c.uses x ≡ 0) × In x (e ∷ es)) free
          (λ x p. (p.0, inr p.1)) v.idle;
    busy = ((λ q. absurd (unhashed.0.1 q)), v.busy);
    allocated = (
      ((All-right (λ x. x < c.fresh) fs (e ∷ bs) v.allocated.1).0, v.allocated.0),
      All-drop (λ x. x < c.fresh) e fs bs v.allocated.1,
    );
    owners = (
      ((All-right (λ x. c.owned x ≡ true) fs (e ∷ bs) v.owners.1).0, v.owners.0),
      All-drop (λ x. c.owned x ≡ true) e fs bs v.owners.1,
    );
    apart =
        All-map (λ x. (Absent x es × (c.uses x ≢ 0)) × (e ≢ x))
          (λ x. Absent x (e ∷ es) × (c.uses x ≢ 0)) (fs ++ bs)
          (λ x p. (((λ q. p.1 (sym q)), p.0.0), p.0.1))
          (All-zip (λ x. Absent x es × (c.uses x ≢ 0)) (λ x. e ≢ x) (fs ++ bs)
            (All-drop (λ x. Absent x es × (c.uses x ≢ 0)) e fs bs v.apart) once);
    total = omega (arith, v.total, length-append fs (e ∷ bs), length-append fs bs);
    in_use = v.in_use;
    bounded = v.bounded;
  }

-- The buffer that was chosen, started and hashed.
module _ (c : Cache) (e : ℕ) (is_locked : Bool) (i : ℤ) where
  started_fields :
      ((hash_entry (start_entry c e is_locked) e i).uses e ≡ 1)
      × ((hash_entry (start_entry c e is_locked) e i).index e ≡ i)
      × ((hash_entry (start_entry c e is_locked) e i).locked e ≡ is_locked)
  unfolding hash_entry start_entry
  started_fields = (ground arith, ground arith, ground arith)

  pub started-IsValid :
      (free es us : List ℕ)
      → IsPicked c free es us e
      → IsValid (hash_entry (start_entry c e is_locked) e i) free (e ∷ es) us
  started-IsValid free es us v =
      hash_entry-IsValid (start_entry c e is_locked) free es [] us e i
        (start-IsValid c free es us e v is_locked) v.out.1

module _ (c : Cache) (i : ℤ) (h : c.noshrink_lookup ≡ true) where
  get_of_none : pick c ≡ none → get c i ≡ none
  unfolding get_entry
  get_of_none p = ground (arith)

  get_of_some :
      (e : ℕ) (c' : Cache)
      → pick c ≡ some (e, c')
      → get c i ≡ some (e, hash_entry (start_entry c' e false) e i)
  unfolding get_entry
  get_of_some e c' p = ground (arith)

  nowait_of_none : pick c ≡ none → get_nowait c i ≡ none
  unfolding get_nowait
  nowait_of_none p = ground (arith)

  nowait_of_some :
      (e : ℕ) (c' : Cache)
      → pick c ≡ some (e, c')
      → get_nowait c i ≡ some (e, hash_entry (start_entry c' e true) e i)
  unfolding get_nowait
  nowait_of_some e c' p = ground (arith)

-- What a caller gets: a buffer with one use under the index, found by a lookup of it, that was
-- unused or not allocated before.
pub record IsGot (c : Cache) (free us : List ℕ) (i : ℤ) (is_locked : Bool) (e : ℕ) (c' : Cache)
    : Type 0 where
  pub free' : List ℕ
  pub es' : List ℕ
  pub valid : IsValid c' free' (e ∷ es') us
  pub one_use : c'.uses e ≡ 1
  pub indexed : c'.index e ≡ i
  pub lock : c'.locked e ≡ is_locked
  pub was_unused : In e free ⊎ (c.fresh ≤ e)

got :
    (c : Cache) (free us : List ℕ) (i : ℤ) (is_locked : Bool) (e : ℕ) (c' : Cache)
    → IsChoice c free us e c'
    → IsGot c free us i is_locked e (hash_entry (start_entry c' e is_locked) e i)
got c free us i is_locked e c' ch =
    let (uses, index, lock) = started_fields c' e is_locked i in
    record {
      free' = ch.free';
      es' = ch.es';
      valid = started-IsValid c' e is_locked i ch.free' ch.es' us ch.picked;
      one_use = uses;
      indexed = index;
      lock = lock;
      was_unused = ch.unused;
    }

first_here : (test : ℕ → Bool) (e : ℕ) (es : List ℕ) → test e ≡ true → first test (e ∷ es) ≡ some e
unfolding first
first_here test e es h = rw (h, first)

-- On a well-formed cache that does not shrink, cache_get sleeps exactly when no buffer is on the
-- free list and none may be added. Else it gives a buffer that was unused or not allocated; the
-- buffer has one user and the index, is not locked, and the cache is well formed with it in front
-- of the hash table.
pub get_cases :
    (c : Cache) (free es us : List ℕ) (i : ℤ)
    → IsValid c free es us
    → ((get c i ≡ none) × (free ≡ []) × (c.count ≡ c.max_buffers))
      ⊎ ((e : ℕ) × (c' : Cache) × (get c i ≡ some (e, c')) × IsGot c free us i false e c')
get_cases c free es us i v = elim (pick_cases c free es us v) [
  | inl (p, idle, full) ↦ inl (get_of_none c i v.keeps p, idle, full)
  | inr (e, c', ch) ↦ inr (
    e,
    hash_entry (start_entry c' e false) e i,
    get_of_some c i v.keeps e c' ch.answer,
    got c free us i false e c' ch,
  )
]

-- On a well-formed cache that does not shrink, cache_get_nowait answers NULL exactly when no
-- buffer is on the free list and none may be added; else its buffer was unused or not allocated,
-- has one user and the index, is locked, and the cache is well formed.
pub get_nowait_cases :
    (c : Cache) (free es us : List ℕ) (i : ℤ)
    → IsValid c free es us
    → ((get_nowait c i ≡ none) × (free ≡ []) × (c.count ≡ c.max_buffers))
      ⊎ ((e : ℕ) × (c' : Cache) × (get_nowait c i ≡ some (e, c')) × IsGot c free us i true e c')
get_nowait_cases c free es us i v = elim (pick_cases c free es us v) [
  | inl (p, idle, full) ↦ inl (nowait_of_none c i v.keeps p, idle, full)
  | inr (e, c', ch) ↦ inr (
    e,
    hash_entry (start_entry c' e true) e i,
    nowait_of_some c i v.keeps e c' ch.answer,
    got c free us i true e c' ch,
  )
]

-- In a well-formed cache that does not shrink, a lookup right after a get, for the same index,
-- finds the buffer that was got.
pub lookup-get :
    (c : Cache) (free es us : List ℕ) (i : ℤ) (e : ℕ) (c' : Cache)
    → IsValid c free es us
    → get c i ≡ some (e, c')
    → (lookup c' i).0 ≡ some e
lookup-get c free es us i e c' v h = elim (get_cases c free es us i v) [
  | inl (n, idle, full) ↦ cc
  | inr (e', k, s, g) ↦
      let pe : e' ≡ e = cc in
      let pk : k ≡ c' = cc in
      subst₂ (λ (x : ℕ) (y : Cache). (lookup y i).0 ≡ some x) pe pk
        (ap (λ r. r.0)
          (lookup-some k i e' (
            search_hash_lem k g.free' (e' ∷ g.es') us g.valid i
            ∙ first_here (λ x. int_eq (k.index x) i) e' g.es'
                ((int_eq_iff (k.index e') i).1 g.indexed))))
]
