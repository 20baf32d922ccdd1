-- ===== src/Hash/Contents.antt =====
-- A hash table as one list of entries, newest first: the bucket `b` holds those whose hash is `b`.
use mathlib.Core.Path.{subst, fun_ext}
use native.Mathlib.Decide.{ℕ_discrete}
use squashfs_tools.Common.{
  ℕ, ◌≤◌, ◌<◌, ◌≡◌, ◌≢◌, refl, sym, ap, ◌∙◌, inl, inr, Bool, true, none, List, [], ◌∷◌, ◌++◌, arith,
  length, update, update_self, update_ne, All, All-map, All-zip, Absent, Distinct, Distinct-drop,
  ◌==◌, if◌then◌else◌, Bool-cases,
}
use squashfs_tools.Hash.{Links, insert, remove, find}
use squashfs_tools.Hash.Chain.{first, find-Chain}
use squashfs_tools.Hash.Table.Defs.{Represents}
use squashfs_tools.Hash.Table.{insert-Represents, remove-Represents}

module _ (hash : ℕ → ℕ) where
  pub bucket_of : List ℕ → ℕ → List ℕ
  bucket_of [] b = []
  bucket_of (x ∷ xs) b = if hash x == b then x ∷ bucket_of xs b else bucket_of xs b

  pub record Contents (t : Links) (es : List ℕ) : Type 0 where
    pub stored : Represents hash t (bucket_of es)
    pub once : Distinct es

  Absent-bucket_of : (e : ℕ) (xs : List ℕ) (b : ℕ) → Absent e xs → Absent e (bucket_of xs b)
  unfolding bucket_of
  Absent-bucket_of e [] b a = tt
  Absent-bucket_of e (x ∷ xs) b a = elim (Bool-cases (hash x == b)) [
    | inl own ↦ rw own (a.0, Absent-bucket_of e xs b a.1)
    | inr other ↦ rw other (Absent-bucket_of e xs b a.1)
  ]

  bucket_of-append :
      (xs ys : List ℕ) (b : ℕ) → bucket_of (xs ++ ys) b ≡ bucket_of xs b ++ bucket_of ys b
  unfolding bucket_of
  bucket_of-append [] ys b = refl
  bucket_of-append (x ∷ xs) ys b = elim (Bool-cases (hash x == b)) [
    | inl own ↦ rw own (ap (λ l. x ∷ l) (bucket_of-append xs ys b))
    | inr other ↦ rw other (bucket_of-append xs ys b)
  ]

  length-bucket_of : (xs : List ℕ) (b : ℕ) → length (bucket_of xs b) ≤ length xs
  unfolding bucket_of
  length-bucket_of [] b = omega arith
  length-bucket_of (x ∷ xs) b = ground (arith, length-bucket_of xs b)

  -- A new entry at the front changes its own bucket only.
  bucket_of-cons :
      (e : ℕ) (xs : List ℕ) (b : ℕ)
      → update (bucket_of xs) (hash e) (e ∷ bucket_of xs (hash e)) b ≡ bucket_of (e ∷ xs) b
  unfolding bucket_of
  bucket_of-cons e xs b = ground arith

  bucket_of_own : (e : ℕ) (bs : List ℕ) → bucket_of (e ∷ bs) (hash e) ≡ e ∷ bucket_of bs (hash e)
  unfolding bucket_of
  bucket_of_own e bs = ground arith

  bucket_of_other :
      (e : ℕ) (bs : List ℕ) (b : ℕ) → hash e ≢ b → bucket_of (e ∷ bs) b ≡ bucket_of bs b
  unfolding bucket_of
  bucket_of_other e bs b h = ground arith

  bucket_of_split :
      (e : ℕ) (fs bs : List ℕ)
      → bucket_of (fs ++ (e ∷ bs)) (hash e) ≡ bucket_of fs (hash e) ++ (e ∷ bucket_of bs (hash e))
  bucket_of_split e fs bs =
      bucket_of-append fs (e ∷ bs) (hash e)
      ∙ ap (λ l. bucket_of fs (hash e) ++ l) (bucket_of_own e bs)

  -- Taking an entry out changes its own bucket only.
  bucket_of-drop :
      (e : ℕ) (fs bs : List ℕ) (b : ℕ)
      → update
          (bucket_of (fs ++ (e ∷ bs)))
          (hash e)
          (bucket_of fs (hash e) ++ bucket_of bs (hash e))
          b
        ≡ bucket_of (fs ++ bs) b
  bucket_of-drop e fs bs b = elim (ℕ_discrete (hash e) b) [
    | yes q ↦
        subst (λ i. update old (hash e) kept i ≡ bucket_of (fs ++ bs) i) q
          (update_self old (hash e) kept ∙ sym (bucket_of-append fs bs (hash e)))
    | no n ↦
        update_ne old (hash e) kept b n
        ∙ bucket_of-append fs (e ∷ bs) b
        ∙ ap (λ l. bucket_of fs b ++ l) (bucket_of_other e bs b n)
        ∙ sym (bucket_of-append fs bs b)
  ]
    where
      old : ℕ → List ℕ
      old = bucket_of (fs ++ (e ∷ bs))

      kept : List ℕ
      kept = bucket_of fs (hash e) ++ bucket_of bs (hash e)

  -- A table whose buckets are all NULL holds nothing.
  pub empty-Contents : (t : Links) → ((b : ℕ) → t.bucket b ≡ none) → Contents t []
  unfolding bucket_of
  empty-Contents t h = record {
    stored = record { chains = h; hashed = λ b. tt; distinct = λ b. tt };
    once = tt;
  }

  -- INSERT_HASH_TABLE of an entry that is not in the table puts it in front of the list of
  -- entries.
  pub insert-Contents :
      (t : Links) (e : ℕ) (es : List ℕ)
      → Contents t es
      → Absent e es
      → Contents (insert hash t e) (e ∷ es)
  insert-Contents t e es c a = record {
    stored =
        subst (λ xs. Represents hash (insert hash t e) xs) (fun_ext (bucket_of-cons e es))
          (insert-Represents hash t (bucket_of es) e c.stored (Absent-bucket_of e es (hash e) a));
    once = (a, c.once);
  }

  -- REMOVE_HASH_TABLE of an entry of a table that holds a list of entries leaves the others, in
  -- their order.
  pub remove-Contents :
      (t : Links) (e : ℕ) (fs bs : List ℕ)
      → Contents t (fs ++ (e ∷ bs))
      → Contents (remove hash t e) (fs ++ bs)
  remove-Contents t e fs bs c = record {
    stored =
        subst (λ xs. Represents hash (remove hash t e) xs) (fun_ext (bucket_of-drop e fs bs))
          (remove-Represents hash t (bucket_of (fs ++ (e ∷ bs))) e (bucket_of fs (hash e))
            (bucket_of bs (hash e)) c.stored (bucket_of_split e fs bs));
    once = (Distinct-drop fs bs e c.once).0;
  }

  first-bucket_of :
      (test : ℕ → Bool) (b : ℕ) (xs : List ℕ)
      → ((x : ℕ) → test x ≡ true → hash x ≡ b)
      → first test (bucket_of xs b) ≡ first test xs
  unfolding first bucket_of
  first-bucket_of test b [] k = refl
  first-bucket_of test b (x ∷ xs) k = ground (arith, k x, first-bucket_of test b xs k)

  -- The search of one bucket finds what the whole table has, if all that pass the test hash there.
  pub find-Contents :
      (t : Links) (es : List ℕ) (test : ℕ → Bool) (b fuel : ℕ)
      → Contents t es
      → ((x : ℕ) → test x ≡ true → hash x ≡ b)
      → length es < fuel
      → find t.next test fuel (t.bucket b) ≡ first test es
  find-Contents t es test b fuel c k h =
      find-Chain t.next t.prev test fuel none (t.bucket b) (bucket_of es b) (c.stored.chains b)
        (omega (arith, length-bucket_of es b))
      ∙ first-bucket_of test b es k

-- A hash that is the same on the entries gives the same buckets.
bucket_of-cong :
    (hash hash' : ℕ → ℕ) (es : List ℕ) (b : ℕ)
    → All (λ x. hash' x ≡ hash x) es
    → bucket_of hash es b ≡ bucket_of hash' es b
unfolding bucket_of
bucket_of-cong hash hash' [] b h = refl
bucket_of-cong hash hash' (x ∷ xs) b h = ground (arith, h.0, bucket_of-cong hash hash' xs b h.1)

All-bucket_of {ℓ} :
    (hash : ℕ → ℕ) (P : ℕ → Type ℓ) (es : List ℕ) (b : ℕ) → All P es → All P (bucket_of hash es b)
unfolding bucket_of
All-bucket_of hash P [] b h = tt
All-bucket_of hash P (x ∷ xs) b h = elim (Bool-cases (hash x == b)) [
  | inl own ↦ rw own (h.0, All-bucket_of hash P xs b h.1)
  | inr other ↦ rw other (All-bucket_of hash P xs b h.1)
]

pub Contents-cong :
    (hash hash' : ℕ → ℕ) (t : Links) (es : List ℕ)
    → All (λ x. hash' x ≡ hash x) es
    → Contents hash t es
    → Contents hash' t es
Contents-cong hash hash' t es h c = record {
  stored =
      subst (λ xs. Represents hash' t xs) (fun_ext (λ b. bucket_of-cong hash hash' es b h))
        (record {
          chains = c.stored.chains;
          hashed = λ b.
              All-map (λ x. (hash' x ≡ hash x) × (hash x ≡ b)) (λ x. hash' x ≡ b)
                (bucket_of hash es b) (λ x p. p.0 ∙ p.1)
                (All-zip (λ x. hash' x ≡ hash x) (λ x. hash x ≡ b) (bucket_of hash es b)
                  (All-bucket_of hash (λ x. hash' x ≡ hash x) es b h) (c.stored.hashed b));
          distinct = c.stored.distinct;
        });
  once = c.once;
}
