-- ===== src/Cache/Lookup.antt =====
-- cache_lookup and cache_lookup_nowait on a cache that does not shrink.
use mathlib.Core.Path.{subst}
use mathlib.Core.Option
use native.Mathlib.Decide.{ℕ_discrete}
use squashfs_tools.Common.{
  ℕ, ◌+◌, ◌%◌, ◌<◌, ◌≡◌, ◌≢◌, ◌⊎◌, inl, inr, sym, ap, ◌∙◌, Bool, true, false, none, some, List, ◌∷◌,
  ◌++◌, arith, length, length-append, All, All-map, All-zip, All-drop, All-In, Absent, Distinct,
  Distinct-drop, In, In-drop, In-split, In-middle, update, update_ne, ◌==◌, Bool-cases,
  Option-cases,
}
use squashfs_tools.Common.Int.{ℤ, int_eq, int_eq_iff}
use squashfs_tools.Hash.Chain.{first_split, first-none}
use squashfs_tools.FreeList
use squashfs_tools.FreeList.Ring
use squashfs_tools.FreeList.Remove
use squashfs_tools.Cache.{Cache, use_again, lookup, lookup_nowait, search_hash}
use squashfs_tools.Cache.Inv.{IsValid, search_hash_lem, free-Distinct}

use_again_idle :
    (c : Cache) (e : ℕ)
    → (c.uses e == 0) ≡ true
    → use_again c e ≡ record c {
      free = FreeList.remove c.free e;
      used = c.used + 1;
      uses = update c.uses e ((c.uses e + 1) % 256);
    }
unfolding use_again
use_again_idle c e h = rw (h, use_again)

use_again_busy :
    (c : Cache) (e : ℕ)
    → (c.uses e == 0) ≡ false
    → use_again c e ≡ record c { uses = update c.uses e ((c.uses e + 1) % 256) }
unfolding use_again
use_again_busy c e h = rw (h, use_again)

module _ (c : Cache) (free es us : List ℕ) (v : IsValid c free es us) (e : ℕ) (i : In e es)
    (room : c.uses e < 255) where
  -- The use count of the other buffers stays.
  apart_after : (n : ℕ) → All (λ x. Absent x es × (update c.uses e n x ≢ 0)) us
  apart_after n =
      All-map (λ x. Absent x es × (c.uses x ≢ 0)) (λ x. Absent x es × (update c.uses e n x ≢ 0)) us
        (λ x p. (p.0, λ q. ground (arith, All-In (λ y. x ≢ y) e es p.0 i, p.1))) v.apart

  busy-IsValid :
      (c.uses e == 0) ≡ false
      → IsValid (record c { uses = update c.uses e ((c.uses e + 1) % 256) }) free es us
  busy-IsValid h = record {
    keeps = v.keeps;
    ring = v.ring;
    table = v.table;
    idle =
        All-map (λ x. (c.uses x ≡ 0) × In x es)
          (λ x. (update c.uses e ((c.uses e + 1) % 256) x ≡ 0) × In x es) free
          (λ x p. (ground (arith, p.0), p.1)) v.idle;
    busy =
        All-map (λ x. c.uses x ≡ 0 → In x free)
          (λ x. update c.uses e ((c.uses e + 1) % 256) x ≡ 0 → In x free) es
          (λ x f q. f (ground (arith, q))) v.busy;
    allocated = v.allocated;
    owners = v.owners;
    apart = apart_after ((c.uses e + 1) % 256);
    total = v.total;
    in_use = v.in_use;
    bounded = v.bounded;
  }

  idle-IsValid :
      (fs bs : List ℕ)
      → free ≡ fs ++ (e ∷ bs)
      → (c.uses e == 0) ≡ true
      → IsValid
          (record c {
            free = FreeList.remove c.free e;
            used = c.used + 1;
            uses = update c.uses e ((c.uses e + 1) % 256);
          })
          (fs ++ bs)
          es
          us
  idle-IsValid fs bs split h = record {
    keeps = v.keeps;
    ring =
        Remove.remove-Represents c.free e fs bs
          (subst (λ l. Ring.Represents c.free l) split v.ring);
    table = v.table;
    idle =
        All-map (λ x. ((c.uses x ≡ 0) × In x es) × (e ≢ x)) (λ x. (uses' x ≡ 0) × In x es)
          (fs ++ bs) (λ x p. (update_ne c.uses e _ x p.1 ∙ p.0.0, p.0.1))
          (All-zip (λ x. (c.uses x ≡ 0) × In x es) (λ x. e ≢ x) (fs ++ bs)
            (All-drop (λ x. (c.uses x ≡ 0) × In x es) e fs bs
              (subst (λ l. All (λ x. (c.uses x ≡ 0) × In x es) l) split v.idle))
            gone);
    busy =
        All-map (λ x. c.uses x ≡ 0 → In x free) (λ x. uses' x ≡ 0 → In x (fs ++ bs)) es still
          v.busy;
    allocated = v.allocated;
    owners = v.owners;
    apart = apart_after ((c.uses e + 1) % 256);
    total = v.total;
    in_use =
        omega (arith, v.in_use, ap length split, length-append fs bs, length-append fs (e ∷ bs));
    bounded = v.bounded;
  }
    where
      uses' : ℕ → ℕ
      uses' = update c.uses e ((c.uses e + 1) % 256)

      gone : Absent e (fs ++ bs)
      gone =
          (Distinct-drop fs bs e (subst (λ l. Distinct l) split (free-Distinct c free es us v))).1

      still : (x : ℕ) → (c.uses x ≡ 0 → In x free) → uses' x ≡ 0 → In x (fs ++ bs)
      still x f q = elim (ℕ_discrete e x) [
        | yes p ↦ absurd (ground (arith, q, p, h))
        | no n ↦
            In-drop x e fs bs (λ p. n (sym p))
              (subst (λ l. In x l) split (f (sym (update_ne c.uses e _ x n) ∙ q)))
      ]

  -- A buffer of the hash table that is used again leaves the free list, if it was there, and nothing
  -- else changes.
  pub use_again-IsValid :
      (free' : List ℕ) × IsValid (use_again c e) free' es us
      × Absent e free'
      × ((use_again c e).uses e ≡ c.uses e + 1)
  use_again-IsValid = elim (Bool-cases (c.uses e == 0)) [
    | inl unused ↦
        let (fs, bs, split) =
          In-split e free
            (All-In (λ x. c.uses x ≡ 0 → In x free) e es v.busy i (ground (arith, unused))) in
        (
          fs ++ bs,
          subst (λ k. IsValid k (fs ++ bs) es us) (sym (use_again_idle c e unused))
              (idle-IsValid fs bs split unused),
          (Distinct-drop fs bs e (subst (λ l. Distinct l) split (free-Distinct c free es us v))).1,
          rw (use_again_idle c e unused) (ground arith),
        )
    | inr used ↦ (
      free,
      subst (λ k. IsValid k free es us) (sym (use_again_busy c e used)) (busy-IsValid used),
      All-map (λ x. (c.uses x ≡ 0) × In x es) (λ x. e ≢ x) free
          (λ x p q. ground (arith, p.0, q, used)) v.idle,
      rw (use_again_busy c e used) (ground arith),
    )
  ]

lookup-none : (c : Cache) (i : ℤ) → search_hash c i ≡ none → lookup c i ≡ (none, c)
unfolding lookup
lookup-none c i h = rw (h, lookup)

pub lookup-some :
    (c : Cache) (i : ℤ) (e : ℕ) → search_hash c i ≡ some e → lookup c i ≡ (some e, use_again c e)
unfolding lookup
lookup-some c i e h = rw (h, lookup)

module _ (c : Cache) (free es us : List ℕ) where
  -- In a well-formed cache that does not shrink, with less than 255 users of each hashed
  -- buffer: cache_lookup finds nothing exactly when no hashed buffer has the index, and then
  -- changes nothing. A buffer that it finds has the index, has one user more, is no longer on
  -- the free list, and the cache stays well formed.
  pub lookup_cases :
      (i : ℤ)
      → IsValid c free es us
      → All (λ e. c.uses e < 255) es
      → ((lookup c i ≡ (none, c)) × All (λ e. c.index e ≢ i) es)
        ⊎ ((e : ℕ) × (free' : List ℕ) × ((lookup c i).0 ≡ some e)
            × (c.index e ≡ i)
            × In e es
            × IsValid (lookup c i).1 free' es us
            × Absent e free'
            × ((lookup c i).1.uses e ≡ c.uses e + 1))
  lookup_cases i v room = elim (first_split (λ e. int_eq (c.index e) i) es) [
    | inl missing ↦ inl (
      lookup-none c i (search_hash_lem c free es us v i ∙ missing),
      All-map (λ e. int_eq (c.index e) i ≡ false) (λ e. c.index e ≢ i) es
          (λ x no_test p. cc (no_test, (int_eq_iff (c.index x) i).1 p))
          (first-none (λ e. int_eq (c.index e) i) es missing),
    )
    | inr (e, fs, bs, found, hit, split) ↦
        let i_in : In e es = subst (λ l. In e l) (sym split) (In-middle e fs bs) in
        let (free', v', out, n) =
          use_again-IsValid c free es us v e i_in (All-In (λ x. c.uses x < 255) e es room i_in) in
        let eq = lookup-some c i e (search_hash_lem c free es us v i ∙ found) in
        inr (
          e,
          free',
          ap (λ r. r.0) eq,
          (int_eq_iff (c.index e) i).0 hit,
          i_in,
          subst (λ r. IsValid r free' es us) (ap (λ r. r.1) (sym eq)) v',
          out,
          rw eq n,
        )
  ]

locked-use_again : (c : Cache) (e : ℕ) → (use_again c e).locked e ≡ c.locked e
unfolding use_again
locked-use_again c e = ground arith

-- cache_lookup_nowait is cache_lookup, but for what it says of the lock of the buffer found.
pub lookup_nowait_lem :
    (c : Cache) (i : ℤ)
    → lookup_nowait c i ≡ (Option.map (λ e. (e, c.locked e)) (lookup c i).0, (lookup c i).1)
unfolding lookup_nowait lookup
lookup_nowait_lem c i = elim (Option-cases (search_hash c i)) [
  | inl missing ↦ rw (missing, lookup_nowait, lookup)
  | inr (e, found) ↦
      rw (found, lookup_nowait, lookup)
        (ap (λ (b : Bool). (some (e, b), use_again c e)) (locked-use_again c e))
]
