-- ===== src/ReadCache/Share.antt =====
-- What cache_get of unsquashfs does with a buffer that it found.
use mathlib.Core.Path.{subst}
use native.Mathlib.Decide.{ℕ_discrete}
use squashfs_tools.Common.{
  ℕ, ◌+◌, ◌≡◌, ◌≢◌, inl, inr, refl, sym, ap, ◌∙◌, true, false, List, ◌∷◌, ◌++◌, arith, length,
  length-append, All, All-map, All-zip, All-drop, All-In, Absent, Distinct, Distinct-drop, In,
  In-drop, In-split, update, update_ne, ◌==◌, Bool-cases,
}
use squashfs_tools.FreeList.Ring
use squashfs_tools.ReadCache.{ReadCache, share, unlist}
use squashfs_tools.ReadCache.Inv.{IsValid, free-Distinct, unlist-Represents}

share_idle :
    (c : ReadCache) (e : ℕ)
    → (c.uses e == 0) ≡ true
    → share c e ≡ record c {
      used = c.used + 1;
      free = unlist c.free e;
      uses = update c.uses e (c.uses e + 1);
    }
unfolding share
share_idle c e h = rw h refl

share_busy :
    (c : ReadCache) (e : ℕ)
    → (c.uses e == 0) ≡ false
    → share c e ≡ record c { uses = update c.uses e (c.uses e + 1) }
unfolding share
share_busy c e h = rw h refl

module _ (c : ReadCache) (free es : List ℕ) (v : IsValid c free es) (e : ℕ) (i : In e es) where
  busy-IsValid :
      (c.uses e == 0) ≡ false → IsValid (record c { uses = update c.uses e (c.uses e + 1) }) free es
  busy-IsValid h = record {
    ring = v.ring;
    table = v.table;
    unique = v.unique;
    idle =
        All-map (λ x. (c.uses x ≡ 0) × In x es)
          (λ x. (update c.uses e (c.uses e + 1) x ≡ 0) × In x es) free
          (λ x p. (ground (arith, p.0), p.1)) v.idle;
    busy =
        All-map (λ x. c.uses x ≡ 0 → In x free)
          (λ x. update c.uses e (c.uses e + 1) x ≡ 0 → In x free) es
          (λ x f q. f (ground (arith, q))) v.busy;
    allocated = v.allocated;
    total = v.total;
    in_use = v.in_use;
    bounded = v.bounded;
  }

  idle-IsValid :
      (fs bs : List ℕ)
      → free ≡ fs ++ (e ∷ bs)
      → (c.uses e == 0) ≡ true
      → IsValid
          (record c {
            used = c.used + 1;
            free = unlist c.free e;
            uses = update c.uses e (c.uses e + 1);
          })
          (fs ++ bs)
          es
  idle-IsValid fs bs split h = record {
    ring = unlist-Represents c.free e fs bs (subst (λ l. Ring.Represents c.free l) split v.ring);
    table = v.table;
    unique = v.unique;
    idle =
        All-map (λ x. ((c.uses x ≡ 0) × In x es) × (e ≢ x)) (λ x. (uses' x ≡ 0) × In x es)
          (fs ++ bs) (λ x p. (update_ne c.uses e _ x p.1 ∙ p.0.0, p.0.1))
          (All-zip (λ x. (c.uses x ≡ 0) × In x es) (λ x. e ≢ x) (fs ++ bs)
            (All-drop (λ x. (c.uses x ≡ 0) × In x es) e fs bs
              (subst (λ l. All (λ x. (c.uses x ≡ 0) × In x es) l) split v.idle))
            gone);
    busy =
        All-map (λ x. c.uses x ≡ 0 → In x free) (λ x. uses' x ≡ 0 → In x (fs ++ bs)) es still
          v.busy;
    allocated = v.allocated;
    total = v.total;
    in_use =
        omega (arith, v.in_use, ap length split, length-append fs bs, length-append fs (e ∷ bs));
    bounded = v.bounded;
  }
    where
      uses' : ℕ → ℕ
      uses' = update c.uses e (c.uses e + 1)

      gone : Absent e (fs ++ bs)
      gone = (Distinct-drop fs bs e (subst (λ l. Distinct l) split (free-Distinct c free es v))).1

      still : (x : ℕ) → (c.uses x ≡ 0 → In x free) → uses' x ≡ 0 → In x (fs ++ bs)
      still x f q = elim (ℕ_discrete e x) [
        | yes p ↦ absurd (ground (arith, q, p))
        | no n ↦
            In-drop x e fs bs (λ p. n (sym p))
              (subst (λ l. In x l) split (f (sym (update_ne c.uses e _ x n) ∙ q)))
      ]

  -- A buffer that is found has one user more, and leaves the free list if it was there.
  pub share-IsValid :
      (free' : List ℕ) × IsValid (share c e) free' es × ((share c e).uses e ≡ c.uses e + 1)
  share-IsValid = elim (Bool-cases (c.uses e == 0)) [
    | inl unused ↦
        let (fs, bs, split) =
          In-split e free
            (All-In (λ x. c.uses x ≡ 0 → In x free) e es v.busy i (ground (arith, unused))) in
        (
          fs ++ bs,
          subst (λ k. IsValid k (fs ++ bs) es) (sym (share_idle c e unused))
              (idle-IsValid fs bs split unused),
          rw (share_idle c e unused) (ground arith),
        )
    | inr used ↦ (
      free,
      subst (λ k. IsValid k free es) (sym (share_busy c e used)) (busy-IsValid used),
      rw (share_busy c e used) (ground arith),
    )
  ]
