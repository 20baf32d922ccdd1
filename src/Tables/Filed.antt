-- ===== src/Tables/Filed.antt =====
-- The search of get_id in squashfs-tools/mksquashfs.c finds each id that create_id made.
use native.Mathlib.Decide.{ℕ_discrete}
use mathlib.Core.Path.{subst}
use squashfs_tools.Common.{
  ℕ, zero, suc, ◌<◌, ◌≡◌, ◌≢◌, ◌⊎◌, inl, inr, refl, sym, ap, ◌∙◌, true, false, none, some, List, [],
  ◌∷◌, ◌++◌, length, get_elem?, set, update, update_self, ◌==◌, arith, All, Bool-cases,
  Option-cases, length-append,
}
use squashfs_tools.Tables.Ids.{IdEntry, Ids, ids_of, id_hash, find_id, get_id, create_id}

pub length-ids_of : (es : List IdEntry) → length (ids_of es) ≡ length es
length-ids_of [] = refl
length-ids_of (e ∷ es) = ap suc (length-ids_of es)

ids_of-append : (es fs : List IdEntry) → ids_of (es ++ fs) ≡ ids_of es ++ ids_of fs
ids_of-append [] fs = refl
ids_of-append (e ∷ es) fs = ap (λ l. e.id ∷ l) (ids_of-append es fs)

pub ids_of-set :
    (es : List IdEntry) (i : ℕ) (e e' : IdEntry)
    → get_elem? es i ≡ some e
    → e'.id ≡ e.id
    → ids_of (set es i e') ≡ ids_of es
ids_of-set [] i e e' h p = refl
ids_of-set (x ∷ es) zero e e' h p =
    let same : x ≡ e = cc in ap (λ n. n ∷ ids_of es) (p ∙ ap (λ (y : IdEntry). y.id) (sym same))
ids_of-set (x ∷ es) (suc i) e e' h p = ap (λ l. x.id ∷ l) (ids_of-set es i e e' h p)

pub get_elem?-append :
    (xs ys : List ℕ) (i : ℕ) → i < length xs → get_elem? (xs ++ ys) i ≡ get_elem? xs i
get_elem?-append [] ys i h = absurd (omega arith)
get_elem?-append (x ∷ xs) ys zero h = refl
get_elem?-append (x ∷ xs) ys (suc i) h = get_elem?-append xs ys i (omega arith)

pub get_elem?-last : (xs : List ℕ) (x : ℕ) → get_elem? (xs ++ (x ∷ [])) (length xs) ≡ some x
get_elem?-last [] x = refl
get_elem?-last (y ∷ xs) x = get_elem?-last xs x

pub get_elem?-within : (xs : List ℕ) (i x : ℕ) → get_elem? xs i ≡ some x → i < length xs
get_elem?-within [] i x h = absurd (cc)
get_elem?-within (y ∷ xs) zero x h = omega arith
get_elem?-within (y ∷ xs) (suc i) x h = omega (arith, get_elem?-within xs i x h)

find_id-append :
    (ids more : List ℕ) (id : ℕ) (bucket : List ℕ)
    → All (λ i. i < length ids) bucket
    → find_id (ids ++ more) id bucket ≡ find_id ids id bucket
unfolding find_id
find_id-append ids more id [] h = refl
find_id-append ids more id (i ∷ bucket) (p, h) =
    rw (get_elem?-append ids more i p, find_id-append ids more id bucket h) refl

pub find_id_lem :
    (ids : List ℕ) (id : ℕ) (bucket : List ℕ) (i : ℕ)
    → find_id ids id bucket ≡ some i
    → get_elem? ids i ≡ some id
unfolding find_id
find_id_lem ids id [] i h = absurd (cc)
find_id_lem ids id (j ∷ bucket) i h = elim (Option-cases (get_elem? ids j)) [
  | inl e ↦ find_id_lem ids id bucket i (
      sym (let there : find_id ids id (j ∷ bucket) ≡ find_id ids id bucket = rw e refl in there)
      ∙ h)
  | inr (n, e) ↦ elim (Bool-cases (n == id)) [
    | inl t ↦
        let here : find_id ids id (j ∷ bucket) ≡ some j = rw (e, t) refl in
        let same : n ≡ id = ground arith in
        let place : j ≡ i = cc in subst (λ k. get_elem? ids k ≡ some id) place (e ∙ ap some same)
    | inr f ↦
        let there : find_id ids id (j ∷ bucket) ≡ find_id ids id bucket = rw (e, f) refl in
        find_id_lem ids id bucket i (sym there ∙ h)
  ]
]

-- Every id of the table is found at its place, which the buckets lead to.
pub record IsFiled (s : Ids) : Type 0 where
  pub inside : (hash : ℕ) → All (λ i. i < length (ids_of s.id_table)) (s.id_hash_table hash)
  pub found : (i id : ℕ) → get_elem? (ids_of s.id_table) i ≡ some id → get_id s id ≡ some i

All-inside :
    (xs ys : List ℕ) (bucket : List ℕ)
    → All (λ i. i < length xs) bucket
    → All (λ i. i < length (xs ++ ys)) bucket
All-inside xs ys [] h = tt
All-inside xs ys (i ∷ bucket) (p, h) =
    (omega (arith, length-append {0} xs ys), All-inside xs ys bucket h)

bucket_cases :
    (f : ℕ → List ℕ) (k h v : ℕ)
    → (update f k (v ∷ f k) h ≡ f h) ⊎ ((k ≡ h) × (update f k (v ∷ f k) h ≡ v ∷ f h))
bucket_cases f k h v = elim (Bool-cases (k == h)) [
  | inl t ↦ let same : k ≡ h = ground arith in inr (same, rw (t, same) refl)
  | inr e ↦ inl (rw e refl)
]

-- The table behind create_id.
pub created :
    (id : ℕ) (s : Ids) → ids_of (create_id id s).1.id_table ≡ ids_of s.id_table ++ (id ∷ [])
unfolding create_id
created id s =
    ids_of-append s.id_table
      (record { id = id; index = length s.id_table; isa_uid = false; isa_gid = false } ∷ [])

-- The ids that were there are found as before.
get_id_old :
    (id i id' : ℕ) (s : Ids)
    → IsFiled s
    → id ≢ id'
    → get_elem? (ids_of s.id_table) i ≡ some id'
    → get_id (create_id id s).1 id' ≡ some i
unfolding get_id create_id find_id
get_id_old id i id' s w ne h =
    let ids = ids_of s.id_table in
    let old : find_id (ids ++ (id ∷ [])) id' (s.id_hash_table (id_hash id')) ≡ some i =
      find_id-append ids (id ∷ []) id' (s.id_hash_table (id_hash id')) (w.inside (id_hash id'))
      ∙ w.found i id' h in
    let other : (id == id') ≡ false = ground (arith, ne) in
    let last : get_elem? (ids ++ (id ∷ [])) (length s.id_table) ≡ some id =
      subst (λ n. get_elem? (ids ++ (id ∷ [])) n ≡ some id) (length-ids_of s.id_table)
        (get_elem?-last ids id) in
    elim (bucket_cases s.id_hash_table (id_hash id) (id_hash id') (length s.id_table)) [
      | inl e ↦ rw (created id s, e) old
      | inr (k, e) ↦ rw (created id s, e, last, other) old
    ]

get_id_new : (id : ℕ) (s : Ids) → get_id (create_id id s).1 id ≡ some (length s.id_table)
unfolding get_id create_id find_id
get_id_new id s =
    let ids = ids_of s.id_table in
    let last : get_elem? (ids ++ (id ∷ [])) (length s.id_table) ≡ some id =
      subst (λ n. get_elem? (ids ++ (id ∷ [])) n ≡ some id) (length-ids_of s.id_table)
        (get_elem?-last ids id) in
    let same : (id == id) ≡ true = ground arith in
    rw
      (
        created id s,
        update_self s.id_hash_table (id_hash id) (length s.id_table ∷ s.id_hash_table (id_hash id)),
        last,
        same,
      )
      refl

created_inside :
    (id : ℕ) (s : Ids)
    → IsFiled s
    → (hash : ℕ)
    → All
        (λ i. i < length (ids_of (create_id id s).1.id_table))
        ((create_id id s).1.id_hash_table hash)
unfolding create_id
created_inside id s w hash =
    let old = All-inside (ids_of s.id_table) (id ∷ []) (s.id_hash_table hash) (w.inside hash) in
    let n : length s.id_table < length (ids_of s.id_table ++ (id ∷ [])) =
      omega (arith, length-ids_of s.id_table, length-append {0} (ids_of s.id_table) (id ∷ [])) in
    subst (λ l. All (λ i. i < length l) ((create_id id s).1.id_hash_table hash))
      (sym (created id s))
      (elim (bucket_cases s.id_hash_table (id_hash id) hash (length s.id_table)) [
        | inl e ↦ subst (All (λ i. i < length (ids_of s.id_table ++ (id ∷ [])))) (sym e) old
        | inr (k, e) ↦
            subst (All (λ i. i < length (ids_of s.id_table ++ (id ∷ [])))) (sym e) (n, old)
      ])

created_found :
    (id i id' : ℕ) (s : Ids)
    → IsFiled s
    → get_id s id ≡ none
    → get_elem? (ids_of s.id_table ++ (id ∷ [])) i ≡ some id'
    → get_id (create_id id s).1 id' ≡ some i
created_found id i id' s w absent h = elim (ℕ_discrete i (length (ids_of s.id_table))) [
  | yes last ↦
      let here : get_elem? (ids_of s.id_table ++ (id ∷ [])) i ≡ some id =
        subst (λ k. get_elem? (ids_of s.id_table ++ (id ∷ [])) k ≡ some id) (sym last)
          (get_elem?-last (ids_of s.id_table) id) in
      let same : id ≡ id' = cc in
      subst (λ k. get_id (create_id id s).1 k ≡ some i) same
        (get_id_new id s ∙ ap some (sym (length-ids_of s.id_table) ∙ sym last))
  | no ne ↦
      let within : i < length (ids_of s.id_table) = omega (
        arith,
        get_elem?-within (ids_of s.id_table ++ (id ∷ [])) i id' h,
        length-append {0} (ids_of s.id_table) (id ∷ []),
        ne,
      ) in
      let there : get_elem? (ids_of s.id_table) i ≡ some id' =
        sym (get_elem?-append (ids_of s.id_table) (id ∷ []) i within) ∙ h in
      let found : get_id s id' ≡ some i = w.found i id' there in
      let other : id ≢ id' = λ e.
        let gone : get_id s id' ≡ none = subst (λ k. get_id s k ≡ none) e absent in absurd (cc) in
      get_id_old id i id' s w other there
]

pub create_id-IsFiled :
    (id : ℕ) (s : Ids) → IsFiled s → get_id s id ≡ none → IsFiled (create_id id s).1
create_id-IsFiled id s w absent = record {
  inside = created_inside id s w;
  found = λ i id' h.
      created_found id i id' s w absent (subst (λ l. get_elem? l i ≡ some id') (created id s) h);
}

-- Only the ids and the buckets matter.
pub IsFiled-marked :
    (s s' : Ids)
    → ids_of s'.id_table ≡ ids_of s.id_table
    → s'.id_hash_table ≡ s.id_hash_table
    → IsFiled s
    → IsFiled s'
unfolding get_id
IsFiled-marked s s' p q w = record {
  inside = λ hash.
      subst (λ l. All (λ i. i < length l) (s'.id_hash_table hash)) (sym p)
        (subst (λ (f : ℕ → List ℕ). All (λ i. i < length (ids_of s.id_table)) (f hash)) (sym q)
          (w.inside hash));
  found = λ i id h. (rw (p, q) refl) ∙ w.found i id (subst (λ l. get_elem? l i ≡ some id) p h);
}
