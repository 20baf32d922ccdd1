-- ===== src/ReadCache/Choose.antt =====
-- The buffer that cache_get fills.
use mathlib.Core.Path.{subst}
use squashfs_tools.Common.{
  ℕ, ◌+◌, ◌≤◌, ◌<◌, ◌≡◌, ◌≢◌, ◌⊎◌, inl, inr, refl, sym, ap, true, false, none, some, List, [], ◌∷◌,
  ◌++◌, arith, length, length-append, All, All-map, All-zip, All-drop, All-In, Absent, Distinct,
  Distinct-drop, In, In-drop, In-split, ltb, Bool-cases,
}
use squashfs_tools.Hash.Contents.{Contents, remove-Contents}
use squashfs_tools.FreeList.Ring
use squashfs_tools.ReadCache.{
  ReadCache, table_hash, remove_free_list, remove_hash_table, alloc, choose,
}
use squashfs_tools.ReadCache.Inv.{IsValid, Unique, free-Distinct, fresh-Absent, unlist-Represents}

pub Unique-drop :
    (block : ℕ → ℕ) (fs : List ℕ) (e : ℕ) (bs : List ℕ)
    → Unique block (fs ++ (e ∷ bs))
    → Unique block (fs ++ bs)
Unique-drop block [] e bs u = u.1
Unique-drop block (x ∷ fs) e bs u =
    (All-drop (λ y. block x ≢ block y) e fs bs u.0, Unique-drop block fs e bs u.1)

-- A buffer has been chosen: it is counted and allocated, and in none of the lists.
pub record IsChosen (c : ReadCache) (free es : List ℕ) (e : ℕ) : Type 0 where
  pub ring : Ring.Represents c.free free
  pub table : Contents (table_hash c.block) c.table es
  pub unique : Unique c.block es
  pub idle : All (λ x. (c.uses x ≡ 0) × In x es) free
  pub busy : All (λ x. c.uses x ≡ 0 → In x free) es
  pub allocated : All (λ x. x < c.fresh) es × (e < c.fresh)
  pub total : length es + 1 ≡ c.count
  pub in_use : c.used + 1 + length free ≡ c.count
  pub bounded : c.count ≤ c.max_buffers
  pub out : Absent e es

-- The first buffer of the free list, which leaves the hash table.
module _ (c : ReadCache) (free es : List ℕ) (e : ℕ) (v : IsValid c (e ∷ free) es) where
  reuse-IsChosen :
      (fs bs : List ℕ)
      → es ≡ fs ++ (e ∷ bs)
      → IsChosen (remove_hash_table (remove_free_list c e) e) free (fs ++ bs) e
  reuse-IsChosen fs bs split = record {
    ring = unlist-Represents c.free e [] free v.ring;
    table =
        remove-Contents (table_hash c.block) c.table e fs bs
          (subst (λ l. Contents (table_hash c.block) c.table l) split v.table);
    unique = Unique-drop c.block fs e bs (subst (λ l. Unique c.block l) split v.unique);
    idle =
        All-map (λ x. ((c.uses x ≡ 0) × In x es) × (e ≢ x)) (λ x. (c.uses x ≡ 0) × In x (fs ++ bs))
          free
          (λ x p. (p.0.0, In-drop x e fs bs (λ q. p.1 (sym q)) (subst (λ l. In x l) split p.0.1)))
          (All-zip (λ x. (c.uses x ≡ 0) × In x es) (λ x. e ≢ x) free v.idle.1
            (free-Distinct c (e ∷ free) es v).0);
    busy =
        All-map (λ x. (c.uses x ≡ 0 → In x (e ∷ free)) × (e ≢ x)) (λ x. c.uses x ≡ 0 → In x free)
          (fs ++ bs) (λ x p q. still x p.1 (p.0 q))
          (All-zip (λ x. c.uses x ≡ 0 → In x (e ∷ free)) (λ x. e ≢ x) (fs ++ bs)
            (dropped (λ x. c.uses x ≡ 0 → In x (e ∷ free)) v.busy) gone);
    allocated = (
      dropped (λ x. x < c.fresh) v.allocated,
      All-In (λ x. x < c.fresh) e es v.allocated v.idle.0.1,
    );
    total = omega (arith, v.total, ap length split, length-append fs (e ∷ bs), length-append fs bs);
    in_use = omega (arith, v.in_use);
    bounded = v.bounded;
    out = gone;
  }
    where
      gone : Absent e (fs ++ bs)
      gone = (Distinct-drop fs bs e (subst (λ l. Distinct l) split v.table.once)).1

      dropped : (P : ℕ → Type 0) → All P es → All P (fs ++ bs)
      dropped P h = All-drop P e fs bs (subst (λ l. All P l) split h)

      still : (x : ℕ) → e ≢ x → In x (e ∷ free) → In x free
      still x ne (inl q) = absurd (ne (sym q))
      still x ne (inr q) = q

-- A new buffer, where there is room for one.
pub alloc-IsChosen :
    (c : ReadCache) (free es : List ℕ)
    → IsValid c free es
    → c.count < c.max_buffers
    → IsChosen (alloc c) free es c.fresh
unfolding alloc
alloc-IsChosen c free es v room =
    let (ae, af) = fresh-Absent c free es v c.fresh (omega arith) in
    record {
      ring = Ring.Represents-frame c.free c.fresh none none free af v.ring;
      table = v.table;
      unique = v.unique;
      idle = v.idle;
      busy = v.busy;
      allocated = (
        All-map (λ x. x < c.fresh) (λ x. x < c.fresh + 1) es (λ x h. omega arith) v.allocated,
        omega arith,
      );
      total = omega (arith, v.total);
      in_use = omega (arith, v.in_use);
      bounded = omega arith;
      out = ae;
    }

-- A choice: the buffer, the cache, and what it tells of the buffers in the cache before.
pub record IsChoice (c : ReadCache) (free es : List ℕ) (e : ℕ) (c' : ReadCache) : Type 1 where
  pub answer : choose c ≡ some (e, c')
  pub free' : List ℕ
  pub es' : List ℕ
  pub chosen : IsChosen c' free' es' e
  pub unused : In e free ⊎ (c.fresh ≤ e)
  pub block_stays : c'.block ≡ c.block
  pub no_new : (P : ℕ → Type 0) → All P es → All P es'

module _ (c : ReadCache) where
  choose_new : ltb c.count c.max_buffers ≡ true → choose c ≡ some (c.fresh, alloc c)
  unfolding choose
  choose_new h = rw h refl

  choose-none : ltb c.count c.max_buffers ≡ false → c.free.head ≡ none → choose c ≡ none
  unfolding choose
  choose-none h n = rw (h, n) refl

  choose_first :
      (e : ℕ)
      → ltb c.count c.max_buffers ≡ false
      → c.free.head ≡ some e
      → choose c ≡ some (e, remove_hash_table (remove_free_list c e) e)
  unfolding choose
  choose_first e h n = ground (arith)

-- There is a choice, unless every buffer is in use and there is no room for one more.
pub choose_cases :
    (c : ReadCache) (free es : List ℕ)
    → IsValid c free es
    → ((choose c ≡ none) × (free ≡ []) × (c.count ≡ c.max_buffers))
      ⊎ ((e : ℕ) × (c' : ReadCache) × IsChoice c free es e c')
unfolding alloc
choose_cases c free es v = elim (Bool-cases (ltb c.count c.max_buffers)) [
  | inl room ↦ inr (
    c.fresh,
    alloc c,
    record {
      answer = choose_new c room;
      free' = free;
      es' = es;
      chosen = alloc-IsChosen c free es v (ground arith);
      unused = inr (omega arith);
      block_stays = refl;
      no_new = λ P h. h;
    },
  )
  | inr full ↦ at_limit free v full
]
  where
    at_limit :
        (free : List ℕ)
        → IsValid c free es
        → ltb c.count c.max_buffers ≡ false
        → ((choose c ≡ none) × (free ≡ []) × (c.count ≡ c.max_buffers))
          ⊎ ((e : ℕ) × (c' : ReadCache) × IsChoice c free es e c')
    at_limit [] v full = inl (choose-none c full v.ring, refl, ground (arith, v.bounded))
    at_limit (e ∷ free) v full =
        let (fs, bs, split) = In-split e es v.idle.0.1 in
        inr (
          e,
          remove_hash_table (remove_free_list c e) e,
          record {
            answer = choose_first c e full v.ring.0;
            free' = free;
            es' = fs ++ bs;
            chosen = reuse-IsChosen c free es e v fs bs split;
            unused = inl (inl refl);
            block_stays = refl;
            no_new = λ P h. All-drop P e fs bs (subst (λ l. All P l) split h);
          },
        )
