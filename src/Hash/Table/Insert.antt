-- ===== src/Hash/Table/Insert.antt =====
-- insert_NAME_hash_table puts the entry in front of its bucket.
use squashfs_tools.Common.{
  ℕ, ◌≡◌, ◌≢◌, refl, sym, none, some, List, [], ◌∷◌, arith, update, All, Absent, Distinct, All-map,
  update_cases, ◌∙◌,
}
use mathlib.Core.Path.{subst}
use squashfs_tools.Pointer.{Pointer, update_at}
use squashfs_tools.Hash.{Links, insert}
use squashfs_tools.Hash.Chain.{Chain, Chain-frame}
use squashfs_tools.Hash.Table.Defs.{Represents, Absent-elsewhere}

some_inj : {x y : ℕ} → some x ≡ some y → x ≡ y
some_inj q = cc

-- Links that differ at `e` and at the `prev` of `e`'s new successor only.
same_links :
    (next prev : ℕ → Pointer) (e : ℕ) (o v : Pointer) (xs : List ℕ)
    → Absent e xs
    → All (λ x. o ≢ some x) xs
    → All (λ x. (update next e o x ≡ next x) × (update_at o (update prev e none) v x ≡ prev x)) xs
same_links next prev e o v [] a b = tt
same_links next prev e none v (x ∷ xs) (ne, a) (b, bs) =
    (ground arith, same_links next prev e none v xs a bs)
same_links next prev e (some s) v (x ∷ xs) (ne, a) (b, bs) =
    (ground arith, same_links next prev e (some s) v xs a bs)

insert-Chain_cons :
    (next prev : ℕ → Pointer) (e x : ℕ) (xs : List ℕ)
    → Chain next prev (some x) (next x) xs
    → Absent e (x ∷ xs)
    → Absent x xs
    → Chain
        (update next e (some x))
        (update_at (some x) (update prev e none) (some e))
        none
        (some e)
        (e ∷ x ∷ xs)
insert-Chain_cons next prev e x xs c (ne, a) b = (
  refl,
  ground arith,
  (ground arith, ground arith, subst (λ r. Chain n' p' (some x) r xs) (sym kept) framed),
)
  where
    n' : ℕ → Pointer
    n' = update next e (some x)

    p' : ℕ → Pointer
    p' = update_at (some x) (update prev e none) (some e)

    kept : n' x ≡ next x
    kept = ground arith

    apart : All (λ z. some x ≢ some z) xs
    apart = All-map (λ z. x ≢ z) (λ z. some x ≢ some z) xs (λ z h q. h (some_inj q)) b

    framed : Chain n' p' (some x) (next x) xs
    framed =
        Chain-frame next prev n' p' (some x) (next x) xs
          (same_links next prev e (some x) (some e) xs a apart) c

-- The chain that the insertion makes.
insert-Chain :
    (next prev : ℕ → Pointer) (e : ℕ) (o : Pointer) (xs : List ℕ)
    → Chain next prev none o xs
    → Absent e xs
    → Distinct xs
    → Chain (update next e o) (update_at o (update prev e none) (some e)) none (some e) (e ∷ xs)
insert-Chain next prev e o [] c a d = rw c (refl, ground arith, ground arith)
insert-Chain next prev e o (x ∷ xs) (eo, ep, c) a (b, d) =
    subst
      (λ r.
        Chain (update next e r) (update_at r (update prev e none) (some e)) none (some e)
          (e ∷ x ∷ xs))
      (sym eo) (insert-Chain_cons next prev e x xs c a b)

-- The head of a chain stands in no list that the chain's entries are absent from.
head_apart :
    (next prev : ℕ → Pointer) (o : Pointer) (xs ys : List ℕ)
    → Chain next prev none o xs
    → ((x : ℕ) → o ≡ some x → Absent x ys)
    → All (λ y. o ≢ some y) ys
head_apart next prev o xs [] c h = tt
head_apart next prev none xs (y ∷ ys) c h =
    (λ q. cc, head_apart next prev none xs ys c (λ x q. absurd (cc)))
head_apart next prev (some s) xs (y ∷ ys) c h =
    (λ q. (h s refl).0 (some_inj q), head_apart next prev (some s) xs ys c (λ x q. (h x q).1))

head_hash :
    (hash : ℕ → ℕ) (next prev : ℕ → Pointer) (b : ℕ) (o : Pointer) (xs : List ℕ)
    → Chain next prev none o xs
    → All (λ x. hash x ≡ b) xs
    → (x : ℕ) → o ≡ some x
    → hash x ≡ b
head_hash hash next prev b o [] c a x e = cc
head_hash hash next prev b o (y ∷ ys) (eo, ep, c) a x e = cc

module _ (hash : ℕ → ℕ) (t : Links) (xs : ℕ → List ℕ) (e : ℕ) where
  -- An entry that is in no bucket goes to the front of its own, and the others stay as they are.
  pub insert-Represents :
      Represents hash t xs
      → Absent e (xs (hash e))
      → Represents hash (insert hash t e) (update xs (hash e) (e ∷ xs (hash e)))
  unfolding insert
  insert-Represents r a = record {
    chains =
        update_cases (λ b o ys. Chain n' p' none o ys) t.bucket xs h (some e) (e ∷ xs h)
          (insert-Chain t.next t.prev e (t.bucket h) (xs h) (r.chains h) a (r.distinct h)) others;
    hashed =
        update_cases (λ b o ys. All (λ x. hash x ≡ b) ys) t.bucket xs h (some e) (e ∷ xs h)
          (refl, r.hashed h) (λ b ne. r.hashed b);
    distinct =
        update_cases (λ b o ys. Distinct ys) t.bucket xs h (some e) (e ∷ xs h) (a, r.distinct h)
          (λ b ne. r.distinct b);
  }
    where
      h : ℕ
      h = hash e

      n' : ℕ → Pointer
      n' = update t.next e (t.bucket h)

      p' : ℕ → Pointer
      p' = update_at (t.bucket h) (update t.prev e none) (some e)

      -- The head of the entry's bucket stands in no other bucket.
      apart : (b : ℕ) → h ≢ b → (x : ℕ) → t.bucket h ≡ some x → Absent x (xs b)
      apart b ne x q =
          Absent-elsewhere hash b x (xs b)
            (λ p. ne (
              sym (head_hash hash t.next t.prev h (t.bucket h) (xs h) (r.chains h) (r.hashed h) x q)
              ∙ p))
            (r.hashed b)

      others : (b : ℕ) → h ≢ b → Chain n' p' none (t.bucket b) (xs b)
      others b ne =
          Chain-frame t.next t.prev n' p' none (t.bucket b) (xs b)
            (same_links t.next t.prev e (t.bucket h) (some e) (xs b)
              (Absent-elsewhere hash b e (xs b) ne (r.hashed b))
              (head_apart t.next t.prev (t.bucket h) (xs h) (xs b) (r.chains h) (apart b ne)))
            (r.chains b)
