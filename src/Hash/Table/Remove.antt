-- ===== src/Hash/Table/Remove.antt =====
-- remove_NAME_hash_table takes the entry out of its bucket.
use mathlib.Core.Path.{subst}
use squashfs_tools.Common.{
  ℕ, ◌≡◌, ◌≢◌, sym, ◌∙◌, Option, none, some, List, [], ◌∷◌, ◌++◌, arith, update, All, Absent,
  Distinct, All-map, All-append, All-left, All-right, Distinct-drop, update_cases,
}
use squashfs_tools.Pointer.{Pointer, IsJoined}
use squashfs_tools.Hash.{Links, remove}
use squashfs_tools.Hash.Chain.{Chain, Chain-frame, next_stays, prev_stays, prev_some}
use squashfs_tools.Hash.Table.Defs.{Represents, Absent-elsewhere}

module _ (next prev next' prev' : ℕ → Pointer) (e : ℕ) (j : IsJoined next prev next' prev' e) where
  -- Entries that are no neighbours of `e` keep their links.
  same_links :
      (xs : List ℕ)
      → Absent e xs
      → All (λ x. prev e ≢ some x) xs
      → All (λ x. next e ≢ some x) xs
      → All (λ x. (next' x ≡ next x) × (prev' x ≡ prev x)) xs
  same_links [] a p n = tt
  same_links (x ∷ xs) (ne, a) (p, ps) (n, ns) = (
    (j.next_same x (λ q. ne (sym q)) p, j.prev_same x (λ q. ne (sym q)) n),
    same_links xs a ps ns,
  )

  -- What stood behind `e` now stands at its place.
  behind :
      (p o : Pointer) (bs : List ℕ)
      → Chain next prev p o (e ∷ bs)
      → Distinct (e ∷ bs)
      → All (λ x. p ≢ some x) bs
      → Chain next' prev' p (next e) bs
  behind p o [] (eo, ep, c) d a = c
  behind p o (b ∷ bs) (eo, ep, (en, eb, c)) ((ne, ae), (ab, d)) (pb, pbs) = (
    en,
    j.prev_joined b (λ q. ne (sym q)) en ∙ ep,
    subst (λ r. Chain next' prev' (some b) r bs) (sym kept)
        (Chain-frame next prev next' prev' (some b) (next b) bs
          (same_links bs ae (subst (λ r. All (λ x. r ≢ some x) bs) (sym ep) pbs) (
            subst (λ r. All (λ x. r ≢ some x) bs) (sym en)
              (All-map (λ x. b ≢ x) (λ x. some b ≢ some x) bs (λ x h q. h (cc)) ab)))
          c),
  )
    where
      kept : next' b ≡ next b
      kept = j.next_same b (λ q. ne (sym q)) (λ q. pb (sym ep ∙ q))

  -- Where entries stand in front of `e`, the head stays.
  inside :
      (p o : Pointer) (x : ℕ) (fs bs : List ℕ)
      → Chain next prev p o (x ∷ (fs ++ (e ∷ bs)))
      → Distinct (x ∷ (fs ++ (e ∷ bs)))
      → Chain next' prev' p o (x ∷ (fs ++ bs))
  inside p o x [] bs (eo, ep, c) (ax, d) = (
    eo,
    j.prev_same x ax.0 (next_stays next prev x (some x) (next x) [] e bs c ax) ∙ ep,
    subst (λ r. Chain next' prev' (some x) r bs) (sym (j.next_joined x ax.0 c.1))
        (behind (some x) (next x) bs c d
          (All-map (λ b. x ≢ b) (λ b. some x ≢ some b) bs (λ b h q. h (cc)) ax.1)),
  )
  inside p o x (f ∷ fs) bs (eo, ep, c) (ax, d) =
      let xe : x ≢ e = (All-right (λ b. x ≢ b) (f ∷ fs) (e ∷ bs) ax).0 in
      let front : Absent x (f ∷ fs) = All-left (λ b. x ≢ b) (f ∷ fs) (e ∷ bs) ax in
      (
        eo,
        j.prev_same x xe (next_stays next prev x (some x) (next x) (f ∷ fs) e bs c ax) ∙ ep,
        subst (λ r. Chain next' prev' (some x) r (f ∷ (fs ++ bs)))
            (sym (j.next_same x xe (prev_stays next prev x (some x) (next x) f fs e bs c front)))
            (inside (some x) (next x) f fs bs c d),
      )

-- Where an entry is not linked to itself, remove_NAME_hash_table joins its neighbours.
remove-IsJoined :
    (hash : ℕ → ℕ) (t : Links) (e : ℕ)
    → t.prev e ≢ some e
    → IsJoined t.next t.prev (remove hash t e).next (remove hash t e).prev e
unfolding remove
remove-IsJoined hash t e self = record {
  next_same = λ x ne p. ground arith;
  next_joined = λ x ne p. ground arith;
  prev_same = λ x ne p. ground arith;
  prev_joined = λ x ne p. ground arith;
}

-- Where the bucket leads afterwards.
bucket-remove_first :
    (hash : ℕ → ℕ) (t : Links) (e : ℕ)
    → t.prev e ≡ none
    → (remove hash t e).bucket (hash e) ≡ t.next e
unfolding remove
bucket-remove_first hash t e h = ground arith

bucket-remove_later :
    (hash : ℕ → ℕ) (t : Links) (e q b : ℕ)
    → t.prev e ≡ some q
    → (remove hash t e).bucket b ≡ t.bucket b
unfolding remove
bucket-remove_later hash t e q b h = ground arith

bucket-remove_ne :
    (hash : ℕ → ℕ) (t : Links) (e b : ℕ) → hash e ≢ b → (remove hash t e).bucket b ≡ t.bucket b
unfolding remove
bucket-remove_ne hash t e b h = ground arith

none_apart : (xs : List ℕ) → All (λ x. ◌≢◌ {A = Option ℕ} none (some x)) xs
none_apart [] = tt
none_apart (x ∷ xs) = (λ q. cc, none_apart xs)

-- No entry is its own predecessor.
prev_not_self :
    (next prev : ℕ → Pointer) (o : Pointer) (fs : List ℕ) (e : ℕ) (bs : List ℕ)
    → Chain next prev none o (fs ++ (e ∷ bs))
    → Distinct (fs ++ (e ∷ bs))
    → prev e ≢ some e
prev_not_self next prev o [] e bs (eo, ep, c) d = λ q. cc
prev_not_self next prev o (y ∷ fs) e bs c d =
    prev_stays next prev e none o y fs e bs c
      (All-left (λ x. e ≢ x) (y ∷ fs) bs (Distinct-drop (y ∷ fs) bs e d).1)

module _ (hash : ℕ → ℕ) (t : Links) (e : ℕ) (fs bs : List ℕ) where
  -- The chain of the entry's own bucket.
  own-Chain :
      Chain t.next t.prev none (t.bucket (hash e)) (fs ++ (e ∷ bs))
      → Distinct (fs ++ (e ∷ bs))
      → IsJoined t.next t.prev (remove hash t e).next (remove hash t e).prev e
      → Chain
          (remove hash t e).next
          (remove hash t e).prev
          none
          ((remove hash t e).bucket (hash e))
          (fs ++ bs)
  own-Chain c d j = go fs c d
    where
      n' : ℕ → Pointer
      n' = (remove hash t e).next

      p' : ℕ → Pointer
      p' = (remove hash t e).prev

      go :
          (gs : List ℕ)
          → Chain t.next t.prev none (t.bucket (hash e)) (gs ++ (e ∷ bs))
          → Distinct (gs ++ (e ∷ bs))
          → Chain n' p' none ((remove hash t e).bucket (hash e)) (gs ++ bs)
      go [] c d =
          subst (λ o. Chain n' p' none o bs) (sym (bucket-remove_first hash t e c.1))
            (behind t.next t.prev n' p' e j none (t.bucket (hash e)) bs c d (none_apart bs))
      go (y ∷ gs) c d =
          let (q, ep) = prev_some t.next t.prev none (t.bucket (hash e)) y gs e bs c in
          subst (λ o. Chain n' p' none o (y ∷ (gs ++ bs)))
            (sym (bucket-remove_later hash t e q (hash e) ep))
            (inside t.next t.prev n' p' e j none (t.bucket (hash e)) y gs bs c d)

  -- An entry of another bucket is no neighbour of the entry.
  no_neighbour :
      (x : ℕ)
      → Chain t.next t.prev none (t.bucket (hash e)) (fs ++ (e ∷ bs))
      → Absent x (fs ++ (e ∷ bs))
      → (t.prev e ≢ some x) × (t.next e ≢ some x)
  no_neighbour x c a = (go fs c a, next_stays t.next t.prev x none (t.bucket (hash e)) fs e bs c a)
    where
      go :
          (gs : List ℕ)
          → Chain t.next t.prev none (t.bucket (hash e)) (gs ++ (e ∷ bs))
          → Absent x (gs ++ (e ∷ bs))
          → t.prev e ≢ some x
      go [] c a = λ q. cc (c.1)
      go (y ∷ gs) c a =
          prev_stays t.next t.prev x none (t.bucket (hash e)) y gs e bs c
            (All-left (λ z. x ≢ z) (y ∷ gs) (e ∷ bs) a)

module _ (hash : ℕ → ℕ) (t : Links) (xs : ℕ → List ℕ) (e : ℕ) (fs bs : List ℕ) where
  -- An entry of a bucket leaves it, and everything else stays where it is.
  pub remove-Represents :
      Represents hash t xs
      → xs (hash e) ≡ fs ++ (e ∷ bs)
      → Represents hash (remove hash t e) (update xs (hash e) (fs ++ bs))
  remove-Represents r split = record {
    chains =
        update_cases (λ b (o : Pointer) ys. Chain t'.next t'.prev none (t'.bucket b) ys) t.bucket xs
          h none (fs ++ bs) (own-Chain hash t e fs bs c d j) others;
    hashed =
        update_cases (λ b (o : Pointer) ys. All (λ x. hash x ≡ b) ys) t.bucket xs h none (fs ++ bs)
          (All-append (λ x. hash x ≡ h) fs bs (All-left (λ x. hash x ≡ h) fs (e ∷ bs) hs)
            (All-right (λ x. hash x ≡ h) fs (e ∷ bs) hs).1)
          (λ b ne. r.hashed b);
    distinct =
        update_cases (λ b (o : Pointer) ys. Distinct ys) t.bucket xs h none (fs ++ bs)
          (Distinct-drop fs bs e d).0 (λ b ne. r.distinct b);
  }
    where
      h : ℕ
      h = hash e

      t' : Links
      t' = remove hash t e

      c : Chain t.next t.prev none (t.bucket h) (fs ++ (e ∷ bs))
      c = subst (λ ys. Chain t.next t.prev none (t.bucket h) ys) split (r.chains h)

      d : Distinct (fs ++ (e ∷ bs))
      d = subst (λ ys. Distinct ys) split (r.distinct h)

      hs : All (λ x. hash x ≡ h) (fs ++ (e ∷ bs))
      hs = subst (λ ys. All (λ x. hash x ≡ h) ys) split (r.hashed h)

      j : IsJoined t.next t.prev t'.next t'.prev e
      j = remove-IsJoined hash t e (prev_not_self t.next t.prev (t.bucket h) fs e bs c d)

      strangers : (b : ℕ) → h ≢ b → All (λ x. (t.prev e ≢ some x) × (t.next e ≢ some x)) (xs b)
      strangers b ne =
          All-map (λ x. hash x ≡ b) (λ x. (t.prev e ≢ some x) × (t.next e ≢ some x)) (xs b)
            (λ x hx.
              no_neighbour hash t e fs bs x c
                (Absent-elsewhere hash h x (fs ++ (e ∷ bs)) (λ q. ne (sym q ∙ hx)) hs))
            (r.hashed b)

      others : (b : ℕ) → h ≢ b → Chain t'.next t'.prev none (t'.bucket b) (xs b)
      others b ne =
          subst (λ o. Chain t'.next t'.prev none o (xs b)) (sym (bucket-remove_ne hash t e b ne))
            (Chain-frame t.next t.prev t'.next t'.prev none (t.bucket b) (xs b)
              (same_links t.next t.prev t'.next t'.prev e j (xs b)
                (Absent-elsewhere hash b e (xs b) ne (r.hashed b))
                (All-map (λ x. (t.prev e ≢ some x) × (t.next e ≢ some x)) (λ x. t.prev e ≢ some x)
                  (xs b) (λ x p. p.0) (strangers b ne))
                (All-map (λ x. (t.prev e ≢ some x) × (t.next e ≢ some x)) (λ x. t.next e ≢ some x)
                  (xs b) (λ x p. p.1) (strangers b ne)))
              (r.chains b))
