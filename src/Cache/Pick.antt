-- ===== src/Cache/Pick.antt =====
-- The choice of a buffer by _cache_get and cache_get_nowait on a cache that does not shrink:
-- cache_freelist and cache_alloc.
use mathlib.Core.Path.{subst}
use squashfs_tools.Common.{
  ℕ, ◌+◌, ◌≤◌, ◌<◌, ◌≡◌, ◌≢◌, ◌⊎◌, inl, inr, refl, sym, ap, true, false, ◌&&◌, none, some, List, [],
  ◌∷◌, ◌++◌, arith, length, length-append, All, All-map, All-zip, All-drop, All-In, Absent,
  Distinct, Distinct-drop, In, In-drop, In-split, update, ltb, Bool-cases,
}
use squashfs_tools.Pointer.{is_set}
use squashfs_tools.Hash.Contents.{Contents, remove-Contents}
use squashfs_tools.FreeList.Ring
use squashfs_tools.FreeList.Remove
use squashfs_tools.Cache.{Cache, cache_hash_of, freelist, alloc, pick}
use squashfs_tools.Cache.Inv.{IsValid, free-Distinct, fresh-Absent}

-- A buffer has been chosen: it is counted and allocated, and in none of the lists.
pub record IsPicked (c : Cache) (free es us : List ℕ) (e : ℕ) : Type 0 where
  pub keeps : c.noshrink_lookup ≡ true
  pub ring : Ring.Represents c.free free
  pub table : Contents (cache_hash_of c.index) c.table es
  pub idle : All (λ x. (c.uses x ≡ 0) × In x es) free
  pub busy : All (λ x. c.uses x ≡ 0 → In x free) es
  pub allocated : All (λ x. x < c.fresh) es × All (λ x. x < c.fresh) us × (e < c.fresh)
  pub owners : All (λ x. c.owned x ≡ true) es × All (λ x. c.owned x ≡ true) us × (c.owned e ≡ true)
  pub apart : All (λ x. Absent x es × (c.uses x ≢ 0)) us
  pub total : length es + length us + 1 ≡ c.count
  pub in_use : c.used + length free ≡ c.count
  pub bounded : c.count ≤ c.max_buffers
  pub out : Absent e es × Absent e us

-- What _cache_get takes from the free list: its first buffer, which it takes out of the hash table.
module _ (c : Cache) (free es us : List ℕ) (e : ℕ) (v : IsValid c (e ∷ free) es us) where
  first-In : In e es
  first-In = v.idle.0.1

  freelist-IsPicked :
      (fs bs : List ℕ) → es ≡ fs ++ (e ∷ bs) → IsPicked (freelist c e) free (fs ++ bs) us e
  unfolding freelist
  freelist-IsPicked fs bs split = record {
    keeps = v.keeps;
    ring = Remove.remove-Represents c.free e [] free v.ring;
    table =
        remove-Contents (cache_hash_of c.index) c.table e fs bs
          (subst (λ l. Contents (cache_hash_of c.index) c.table l) split v.table);
    idle =
        All-map (λ x. ((c.uses x ≡ 0) × In x es) × (e ≢ x)) (λ x. (c.uses x ≡ 0) × In x (fs ++ bs))
          free
          (λ x p. (p.0.0, In-drop x e fs bs (λ q. p.1 (sym q)) (subst (λ l. In x l) split p.0.1)))
          (All-zip (λ x. (c.uses x ≡ 0) × In x es) (λ x. e ≢ x) free v.idle.1 apart.0);
    busy =
        All-map (λ x. (c.uses x ≡ 0 → In x (e ∷ free)) × (e ≢ x)) (λ x. c.uses x ≡ 0 → In x free)
          (fs ++ bs) (λ x p q. still x p.1 (p.0 q))
          (All-zip (λ x. c.uses x ≡ 0 → In x (e ∷ free)) (λ x. e ≢ x) (fs ++ bs)
            (All-drop (λ x. c.uses x ≡ 0 → In x (e ∷ free)) e fs bs
              (subst (λ l. All (λ x. c.uses x ≡ 0 → In x (e ∷ free)) l) split v.busy))
            gone);
    allocated = (
      dropped (λ x. x < c.fresh) v.allocated.0,
      v.allocated.1,
      All-In (λ x. x < c.fresh) e es v.allocated.0 first-In,
    );
    owners = (
      dropped (λ x. c.owned x ≡ true) v.owners.0,
      v.owners.1,
      All-In (λ x. c.owned x ≡ true) e es v.owners.0 first-In,
    );
    apart =
        All-map (λ x. Absent x es × (c.uses x ≢ 0)) (λ x. Absent x (fs ++ bs) × (c.uses x ≢ 0)) us
          (λ x p. (dropped (λ y. x ≢ y) p.0, p.1)) v.apart;
    total = omega (arith, v.total, ap length split, length-append fs (e ∷ bs), length-append fs bs);
    in_use = omega (arith, v.in_use);
    bounded = v.bounded;
    out = (
      gone,
      All-map (λ x. Absent x es × (c.uses x ≢ 0)) (λ x. e ≢ x) us
          (λ x p q. All-In (λ y. x ≢ y) e es p.0 first-In (sym q)) v.apart,
    );
  }
    where
      apart : Distinct (e ∷ free)
      apart = free-Distinct c (e ∷ free) es us v

      gone : Absent e (fs ++ bs)
      gone = (Distinct-drop fs bs e (subst (λ l. Distinct l) split v.table.once)).1

      dropped : (P : ℕ → Type 0) → All P es → All P (fs ++ bs)
      dropped P h = All-drop P e fs bs (subst (λ l. All P l) split h)

      still : (x : ℕ) → e ≢ x → In x (e ∷ free) → In x free
      still x ne (inl q) = absurd (ne (sym q))
      still x ne (inr q) = q

-- A new buffer, where there is room for one.
module _ (c : Cache) (free es us : List ℕ) (v : IsValid c free es us) where
  pub alloc-IsPicked :
      c.count < c.max_buffers → IsPicked (record (alloc c) { used = c.used + 1 }) free es us c.fresh
  unfolding alloc
  alloc-IsPicked room =
      let (ae, au, af) = fresh-Absent c free es us v c.fresh (omega arith) in
      record {
        keeps = v.keeps;
        ring = Ring.Represents-frame c.free c.fresh none none free af v.ring;
        table = v.table;
        idle = v.idle;
        busy = v.busy;
        allocated = (
          All-map (λ x. x < c.fresh) (λ x. x < c.fresh + 1) es (λ x h. omega arith) v.allocated.0,
          All-map (λ x. x < c.fresh) (λ x. x < c.fresh + 1) us (λ x h. omega arith) v.allocated.1,
          omega arith,
        );
        owners = (
          All-map (λ x. c.owned x ≡ true) (λ x. update c.owned c.fresh true x ≡ true) es
              (λ x h. ground (arith, h)) v.owners.0,
          All-map (λ x. c.owned x ≡ true) (λ x. update c.owned c.fresh true x ≡ true) us
              (λ x h. ground (arith, h)) v.owners.1,
          ground arith,
        );
        apart = v.apart;
        total = omega (arith, v.total);
        in_use = omega (arith, v.in_use);
        bounded = omega arith;
        out = (ae, au);
      }

-- What `pick` answers, on each branch.
module _ (c : Cache) where
  pick-none : c.free.head ≡ none → (ltb c.count c.max_buffers) ≡ false → pick c ≡ none
  unfolding pick
  pick-none h full = rw (h, full, pick) (ground arith)

  pick-alloc :
      (c.first_freelist && is_set c.free.head) ≡ false
      → (ltb c.count c.max_buffers) ≡ true
      → pick c ≡ some (c.fresh, record (alloc c) { used = c.used + 1 })
  unfolding pick
  pick-alloc h room = rw (h, room, pick)

module _ (c : Cache) (e : ℕ) where
  pick_first : c.free.head ≡ some e → c.first_freelist ≡ true → pick c ≡ some (e, freelist c e)
  unfolding pick
  pick_first h f = ground (arith)

  pick_last :
      c.free.head ≡ some e
      → c.first_freelist ≡ false
      → (ltb c.count c.max_buffers) ≡ false
      → pick c ≡ some (e, freelist c e)
  unfolding pick
  pick_last h f full = ground (arith)

-- A choice: the buffer, which is the first of the free list or newly allocated, and the cache.
pub record IsChoice (c : Cache) (free us : List ℕ) (e : ℕ) (c' : Cache) : Type 0 where
  pub answer : pick c ≡ some (e, c')
  pub free' : List ℕ
  pub es' : List ℕ
  pub picked : IsPicked c' free' es' us e
  pub unused : In e free ⊎ (c.fresh ≤ e)

pub pick_cases :
    (c : Cache) (free es us : List ℕ)
    → IsValid c free es us
    → ((pick c ≡ none) × (free ≡ []) × (c.count ≡ c.max_buffers))
      ⊎ ((e : ℕ) × (c' : Cache) × IsChoice c free us e c')
pick_cases c [] es us v = elim (Bool-cases (ltb c.count c.max_buffers)) [
  | inl room ↦ inr (
    c.fresh,
    record (alloc c) { used = c.used + 1 },
    record {
      answer = pick-alloc c (rw (v.ring) (ground arith)) room;
      free' = [];
      es' = es;
      picked = alloc-IsPicked c [] es us v (ground arith);
      unused = inr (omega arith);
    },
  )
  | inr full ↦ inl (pick-none c v.ring full, refl, ground (arith, v.bounded))
]
pick_cases c (e ∷ free) es us v =
    let (fs, bs, split) = In-split e es (first-In c free es us e v) in
    let reused : pick c ≡ some (e, freelist c e)
        → (e' : ℕ) × (c' : Cache) × IsChoice c (e ∷ free) us e' c' =
      λ a. (
        e,
        freelist c e,
        record {
          answer = a;
          free' = free;
          es' = fs ++ bs;
          picked = freelist-IsPicked c free es us e v fs bs split;
          unused = inl (inl refl);
        },
      ) in
    elim (Bool-cases c.first_freelist) [
      | inl early ↦ inr (reused (pick_first c e v.ring.0 early))
      | inr late ↦ elim (Bool-cases (ltb c.count c.max_buffers)) [
        | inr full ↦ inr (reused (pick_last c e v.ring.0 late full))
        | inl room ↦ inr (
          c.fresh,
          record (alloc c) { used = c.used + 1 },
          record {
            answer = pick-alloc c (rw late) room;
            free' = e ∷ free;
            es' = es;
            picked = alloc-IsPicked c (e ∷ free) es us v (ground arith);
            unused = inr (omega arith);
          },
        )
      ]
    ]
