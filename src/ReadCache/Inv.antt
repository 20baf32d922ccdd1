-- ===== src/ReadCache/Inv.antt =====
-- The invariant of the cache of unsquashfs, and the removal from its free list.
use squashfs_tools.Common.{
  ℕ, suc, ◌+◌, ◌≤◌, ◌<◌, ◌≡◌, ◌≢◌, refl, ap, none, some, List, [], ◌∷◌, ◌++◌, arith, length, All,
  All-map, All-In, Absent, Distinct, In, ◌==◌, ==_iff,
}
use squashfs_tools.Pointer.{Pointer}
use squashfs_tools.Hash.{calculate_hash}
use squashfs_tools.Hash.Chain.{first}
use squashfs_tools.Hash.Contents.{Contents, find-Contents, empty-Contents}
use squashfs_tools.FreeList
use squashfs_tools.FreeList.Ring
use squashfs_tools.FreeList.Ring.{Way, Way-last, Way-split}
use squashfs_tools.FreeList.Remove
use squashfs_tools.ReadCache.{ReadCache, table_hash, init, find_block, unlist}

-- No two buffers hold one block.
abbrev pub Unique : (ℕ → ℕ) → List ℕ → Type 0
Unique block [] = Unit
Unique block (x ∷ xs) = All (λ y. block x ≢ block y) xs × Unique block xs

-- `free` are the buffers of the free list, the next to be reused first, and `es` all that are
-- allocated, the newest first.
pub record IsValid (c : ReadCache) (free es : List ℕ) : Type 0 where
  pub ring : Ring.Represents c.free free
  pub table : Contents (table_hash c.block) c.table es
  pub unique : Unique c.block es
  -- The buffers on the free list are those that have no user.
  pub idle : All (λ e. (c.uses e ≡ 0) × In e es) free
  pub busy : All (λ e. c.uses e ≡ 0 → In e free) es
  pub allocated : All (λ e. e < c.fresh) es
  -- `count` counts the buffers, and `used` those that have users.
  pub total : length es ≡ c.count
  pub in_use : c.used + length free ≡ c.count
  pub bounded : c.count ≤ c.max_buffers

-- cache_init gives an empty cache.
pub init-IsValid :
    (memory : ReadCache) (buffer_size max_buffers : ℕ)
    → IsValid (init memory buffer_size max_buffers) [] []
unfolding init
init-IsValid memory buffer_size max_buffers = record {
  ring = refl;
  table =
      empty-Contents (table_hash memory.block) (record (memory.table) { bucket = λ b. none })
        (λ b. refl);
  unique = tt;
  idle = tt;
  busy = tt;
  allocated = tt;
  total = omega arith;
  in_use = omega arith;
  bounded = omega arith;
}

Way-next :
    (next prev : ℕ → Pointer) (a : ℕ) (xs : List ℕ) (z : ℕ)
    → Way next prev a xs z
    → (n : ℕ) × (next a ≡ some n)
Way-next next prev a [] z w = (z, w.0)
Way-next next prev a (x ∷ xs) z w = (x, w.0.0)

-- An entry on the list has both its links set.
linked :
    (l : FreeList.Links) (e : ℕ) (fs bs : List ℕ)
    → Ring.Represents l (fs ++ (e ∷ bs))
    → ((n : ℕ) × (l.next e ≡ some n)) × ((p : ℕ) × (l.prev e ≡ some p))
linked l e [] bs (h, w, d) =
    (Way-next l.next l.prev e bs e w, (Ring.last e bs, (Way-last l.next l.prev e bs e w).1))
linked l e (x ∷ fs) bs (h, w, d) =
    let (before, behind) = Way-split l.next l.prev x fs e bs x w in
    (
      Way-next l.next l.prev e bs x behind,
      (Ring.last x fs, (Way-last l.next l.prev x fs e before).1),
    )

unlist-remove :
    (l : FreeList.Links) (e n p : ℕ)
    → l.next e ≡ some n
    → l.prev e ≡ some p
    → unlist l e ≡ FreeList.remove l e
unfolding unlist FreeList.remove
unlist-remove l e n p hn hp = rw (hn, hp) refl

-- remove_free_list takes an entry of the free list out of it.
pub unlist-Represents :
    (l : FreeList.Links) (e : ℕ) (fs bs : List ℕ)
    → Ring.Represents l (fs ++ (e ∷ bs))
    → Ring.Represents (unlist l e) (fs ++ bs)
unlist-Represents l e fs bs r =
    let ((n, hn), (p, hp)) = linked l e fs bs r in
    rw (unlist-remove l e n p hn hp) (Remove.remove-Represents l e fs bs r)

module _ (c : ReadCache) (free es : List ℕ) (v : IsValid c free es) where
  -- The search finds the newest buffer that holds the block.
  pub find_block_lem : (b : ℕ) → find_block c b ≡ first (λ e. c.block e == b) es
  unfolding find_block
  find_block_lem b =
      find-Contents (table_hash c.block) c.table es (λ e. c.block e == b) (calculate_hash b)
        (suc c.count) v.table (λ x t. ap calculate_hash ((==_iff (c.block x) b).0 t))
        (omega (arith, v.total))

  Represents-Distinct : (xs : List ℕ) → Ring.Represents c.free xs → Distinct xs
  Represents-Distinct [] r = tt
  Represents-Distinct (x ∷ xs) r = r.2

  pub free-Distinct : Distinct free
  free-Distinct = Represents-Distinct free v.ring

  -- A buffer that is not allocated is in no list.
  pub fresh-Absent : (e : ℕ) → c.fresh ≤ e → Absent e es × Absent e free
  fresh-Absent e h =
      let out : (x : ℕ) → x < c.fresh → e ≢ x = λ x lt q. omega arith in
      (
        All-map (λ x. x < c.fresh) (λ x. e ≢ x) es out v.allocated,
        All-map (λ x. (c.uses x ≡ 0) × In x es) (λ x. e ≢ x) free
            (λ x p. out x (All-In (λ y. y < c.fresh) x es v.allocated p.1)) v.idle,
      )
