-- ===== src/ReadCache/Get.antt =====
-- cache_get of unsquashfs.
use mathlib.Core.Path.{subst}
use squashfs_tools.Common.{
  ℕ, ◌+◌, ◌≤◌, ◌≡◌, ◌≢◌, ◌⊎◌, inl, inr, sym, ap, ◌∙◌, true, false, none, some, List, [], ◌∷◌, arith,
  All, All-map, All-zip, All-In, Absent, In, In-middle, update, update_ne, ◌==◌, ==_iff,
}
use squashfs_tools.Hash.{calculate_hash}
use squashfs_tools.Hash.Chain.{first_split, first-none}
use squashfs_tools.Hash.Contents.{insert-Contents, Contents-cong}
use squashfs_tools.ReadCache.{
  ReadCache, table_hash, find_block, share, choose, start, Outcome, found, queued, sleeps,
  get_missing, get,
}
use squashfs_tools.ReadCache.Inv.{IsValid, Unique, find_block_lem}
use squashfs_tools.ReadCache.Share.{share-IsValid}
use squashfs_tools.ReadCache.Choose.{IsChosen, choose_cases}

Unique-update :
    (block : ℕ → ℕ) (e b : ℕ) (es : List ℕ)
    → Absent e es
    → Unique block es
    → Unique (update block e b) es
Unique-update block e b [] a u = tt
Unique-update block e b (x ∷ es) a u = (
  All-map (λ y. (block x ≢ block y) × (e ≢ y)) (λ y. update block e b x ≢ update block e b y) es
      (λ y p q. p.0 (sym (update_ne block e b x a.0) ∙ (q ∙ update_ne block e b y p.1)))
      (All-zip (λ y. block x ≢ block y) (λ y. e ≢ y) es u.0 a.1),
  Unique-update block e b es a.1 u.1,
)

-- The chosen buffer is filled for a block that no other holds.
pub start-IsValid :
    (c : ReadCache) (free es : List ℕ) (e b size : ℕ)
    → IsChosen c free es e
    → All (λ x. c.block x ≢ b) es
    → IsValid (start c e b size) free (e ∷ es)
unfolding start
start-IsValid c free es e b size v other = record {
  ring = v.ring;
  table =
      insert-Contents (table_hash block') c.table e es
        (Contents-cong (table_hash c.block) (table_hash block') c.table es
          (All-map (λ x. e ≢ x) (λ x. table_hash block' x ≡ table_hash c.block x) es
            (λ x ne. ap calculate_hash (update_ne c.block e b x ne)) v.out)
          v.table)
        v.out;
  unique = (
    All-map (λ x. (c.block x ≢ b) × (e ≢ x)) (λ x. block' e ≢ block' x) es
        (λ x p q. p.0 (ground (arith, q, p.1)))
        (All-zip (λ x. c.block x ≢ b) (λ x. e ≢ x) es other v.out),
    Unique-update c.block e b es v.out v.unique,
  );
  idle =
      All-map (λ x. (c.uses x ≡ 0) × In x es) (λ x. (update c.uses e 1 x ≡ 0) × In x (e ∷ es)) free
        (λ x p. (update_ne c.uses e 1 x (All-In (λ y. e ≢ y) x es v.out p.1) ∙ p.0, inr p.1))
        v.idle;
  busy = (
    (λ q. absurd (ground (arith, q))),
    All-map (λ x. c.uses x ≡ 0 → In x free) (λ x. update c.uses e 1 x ≡ 0 → In x free) es
        (λ x f q. f (ground (arith, q))) v.busy,
  );
  allocated = (v.allocated.1, v.allocated.0);
  total = omega (arith, v.total);
  in_use = omega (arith, v.in_use);
  bounded = v.bounded;
}
  where
    block' : ℕ → ℕ
    block' = update c.block e b

-- The answers of cache_get for the block `b`.
pub data Answer (c : ReadCache) (free es : List ℕ) (b : ℕ) : Outcome → Type 1 where
  -- A buffer that holds the block has one user more.
  hit :
      {o : Outcome} (e : ℕ) (c' : ReadCache) (free' : List ℕ)
      → o ≡ found e c'
      → c.block e ≡ b
      → IsValid c' free' es
      → c'.uses e ≡ c.uses e + 1
      → Answer c free es b o
  -- No buffer holds it; one that had no user is filled, pending, for one user.
  miss :
      {o : Outcome} (e : ℕ) (c' : ReadCache) (free' es' : List ℕ)
      → o ≡ queued e c'
      → All (λ x. c.block x ≢ b) es
      → In e free ⊎ (c.fresh ≤ e)
      → IsValid c' free' (e ∷ es')
      → (c'.block e ≡ b) × (c'.uses e ≡ 1) × (c'.pending e ≡ true) × (c'.error e ≡ false)
      → Answer c free es b o
  -- No buffer holds it, and all are in use.
  wait :
      {o : Outcome}
      → o ≡ sleeps (record c { wait_free = true })
      → All (λ x. c.block x ≢ b) es
      → free ≡ []
      → c.count ≡ c.max_buffers
      → Answer c free es b o

start_fields :
    (c : ReadCache) (e b size : ℕ)
    → ((start c e b size).block e ≡ b)
      × ((start c e b size).uses e ≡ 1)
      × ((start c e b size).pending e ≡ true)
      × ((start c e b size).error e ≡ false)
unfolding start
start_fields c e b size = (ground arith, ground arith, ground arith, ground arith)

missing-none :
    (c : ReadCache) (b size : ℕ)
    → choose c ≡ none
    → get_missing c b size ≡ sleeps (record c { wait_free = true })
unfolding get_missing
missing-none c b size h = rw (h, get_missing)

missing-some :
    (c : ReadCache) (b size e : ℕ) (c' : ReadCache)
    → choose c ≡ some (e, c')
    → get_missing c b size ≡ queued e (start c' e b size)
unfolding get_missing
missing-some c b size e c' h = rw (h, get_missing)

-- What happens to a block that no buffer holds, also where the thread has slept: unless it sleeps
-- again, one buffer without a user is filled for it, and the cache stays well formed.
pub get_missing_cases :
    (c : ReadCache) (free es : List ℕ) (b size : ℕ)
    → IsValid c free es
    → All (λ x. c.block x ≢ b) es
    → Answer c free es b (get_missing c b size)
get_missing_cases c free es b size v other = elim (choose_cases c free es v) [
  | inl (n, idle, full) ↦ wait (missing-none c b size n) other idle full
  | inr (e, c', ch) ↦
      miss e (start c' e b size) ch.free' ch.es' (missing-some c b size e c' ch.answer) other
        ch.unused
        (start-IsValid c' ch.free' ch.es' e b size ch.chosen (
          subst (λ (f : ℕ → ℕ). All (λ x. f x ≢ b) ch.es') (sym ch.block_stays)
            (ch.no_new (λ x. c.block x ≢ b) other)))
        (start_fields c' e b size)
]

get-none :
    (c : ReadCache) (b size : ℕ) → find_block c b ≡ none → get c b size ≡ get_missing c b size
unfolding get
get-none c b size h = rw (h, get)

get-some :
    (c : ReadCache) (b size e : ℕ) → find_block c b ≡ some e → get c b size ≡ found e (share c e)
unfolding get
get-some c b size e h = rw (h, get)

-- On a well-formed cache, cache_get of unsquashfs gives the buffer that holds the block, with one
-- user more; where no buffer holds it, one without a user or a new one is filled for it, pending
-- and with one user, and queued to be read; where moreover all are in use, it sleeps, with
-- wait_free set. The cache stays well formed: no two buffers hold one block.
pub get_lem :
    (c : ReadCache) (free es : List ℕ) (b size : ℕ)
    → IsValid c free es
    → Answer c free es b (get c b size)
get_lem c free es b size v = elim (first_split (λ e. c.block e == b) es) [
  | inl missing ↦
      subst (Answer c free es b) (sym (get-none c b size (find_block_lem c free es v b ∙ missing)))
        (get_missing_cases c free es b size v (
          All-map (λ e. (c.block e == b) ≡ false) (λ e. c.block e ≢ b) es
            (λ x no_test p. ground (arith, no_test, p))
            (first-none (λ e. c.block e == b) es missing)))
  | inr (e, fs, bs, at, test, split) ↦
      let i : In e es = subst (λ l. In e l) (sym split) (In-middle e fs bs) in
      let (free', v', n) = share-IsValid c free es v e i in
      hit e (share c e) free' (get-some c b size e (find_block_lem c free es v b ∙ at))
        ((==_iff (c.block e) b).0 test) v' n
]
