-- ===== src/Tables/Owners.antt =====
-- Each id of an owner or a group has its place in the table of squashfs-tools/mksquashfs.c once, and
-- keeps it.
use mathlib.Core.Path.{subst}
use mathlib.Core.List.{append-nil}
use squashfs_tools.Common.{
  ℕ, ◌≤◌, ◌≡◌, ◌⊎◌, inl, inr, refl, sym, ◌∙◌, true, none, some, List, [], ◌∷◌, ◌++◌, length,
  get_elem?, ◌==◌, arith, All, Bool-cases, Option-cases,
}
use squashfs_tools.Tables.Filed.{
  IsFiled, length-ids_of, ids_of-set, get_elem?-last, find_id_lem, created, create_id-IsFiled,
  IsFiled-marked,
}
use squashfs_tools.Tables.Ids.{
  Ids, ids_of, squashfs_ids, id_hash, get_id, create_id, have_id, mark_uid, mark_gid, get_uid,
  get_guid, Owner, uid, gid, number_of, get_owner,
}

-- What get_uid and get_guid do: `i` is the place of `id` in the table, which is as before or has it at
-- its end.
pub record Had (id i : ℕ) (s s' : Ids) : Type 0 where
  pub more : List ℕ
  pub ids : ids_of s'.id_table ≡ ids_of s.id_table ++ more
  pub few : length more ≤ 1
  pub same : All (λ n. n ≡ id) more
  pub here : get_elem? (ids_of s'.id_table) i ≡ some id
  pub filed : IsFiled s'

-- "Out of uids!": the table is full, and the id is not in it.
abbrev pub IsOut : ℕ → Ids → Type 0
IsOut id s = (length s.id_table ≡ squashfs_ids) × (get_id s id ≡ none)

get_created :
    (id : ℕ) (s : Ids) → get_elem? (ids_of (create_id id s).1.id_table) (create_id id s).0 ≡ some id
unfolding create_id
get_created id s =
    rw (created id s, sym (length-ids_of s.id_table)) (get_elem?-last (ids_of s.id_table) id)

get_id_here :
    (id i : ℕ) (s : Ids) → get_id s id ≡ some i → get_elem? (ids_of s.id_table) i ≡ some id
unfolding get_id
get_id_here id i s e = find_id_lem (ids_of s.id_table) id (s.id_hash_table (id_hash id)) i e

have_id_lem :
    (id : ℕ) (s : Ids)
    → IsFiled s
    → ((have_id id s ≡ none) × IsOut id s)
      ⊎ ((i : ℕ) × (s' : Ids) × (have_id id s ≡ some (i, s')) × Had id i s s')
unfolding have_id
have_id_lem id s w = elim (Option-cases (get_id s id)) [
  | inl absent ↦ elim (Bool-cases (length s.id_table == squashfs_ids)) [
    | inl t ↦
        let full : length s.id_table ≡ squashfs_ids = ground arith in
        inl (rw (absent, have_id) (rw t refl), (full, absent))
    | inr f ↦ inr (
      (create_id id s).0,
      (create_id id s).1,
      rw (absent, have_id) (rw f refl),
      record {
        more = id ∷ [];
        ids = created id s;
        few = omega arith;
        same = (refl, tt);
        here = get_created id s;
        filed = create_id-IsFiled id s w absent;
      },
    )
  ]
  | inr (i, e) ↦ inr (
    i,
    s,
    rw (e, have_id) refl,
    record {
      more = [];
      ids = sym (append-nil (ids_of s.id_table));
      few = omega arith;
      same = tt;
      here = get_id_here id i s e;
      filed = w;
    },
  )
]

Had-marked :
    (id i : ℕ) (s s' s'' : Ids)
    → ids_of s''.id_table ≡ ids_of s'.id_table
    → s''.id_hash_table ≡ s'.id_hash_table
    → Had id i s s'
    → Had id i s s''
Had-marked id i s s' s'' p q h = record {
  more = h.more;
  ids = p ∙ h.ids;
  few = h.few;
  same = h.same;
  here = rw p h.here;
  filed = IsFiled-marked s' s'' p q h.filed;
}

-- ISA_UID changes no id.
mark_uid_lem :
    (id i : ℕ) (s s' : Ids) → Had id i s s' → Had id i s (mark_uid (get_elem? s'.id_table i) i s')
mark_uid_lem id i s s' h = elim (Option-cases (get_elem? s'.id_table i)) [
  | inl e ↦ subst (λ o. Had id i s (mark_uid o i s')) (sym e) h
  | inr (x, e) ↦
      subst (λ o. Had id i s (mark_uid o i s')) (sym e)
        (elim (Bool-cases x.isa_uid) [
          | inl t ↦ Had-marked id i s s' (mark_uid (some x) i s') (rw t refl) (rw t refl) h
          | inr f ↦
              Had-marked id i s s' (mark_uid (some x) i s')
                (rw f (ids_of-set s'.id_table i x (record x { isa_uid = true }) e refl)) (rw f refl)
                h
        ])
]

mark_gid_lem :
    (id i : ℕ) (s s' : Ids) → Had id i s s' → Had id i s (mark_gid (get_elem? s'.id_table i) i s')
mark_gid_lem id i s s' h = elim (Option-cases (get_elem? s'.id_table i)) [
  | inl e ↦ subst (λ o. Had id i s (mark_gid o i s')) (sym e) h
  | inr (x, e) ↦
      subst (λ o. Had id i s (mark_gid o i s')) (sym e)
        (elim (Bool-cases x.isa_gid) [
          | inl t ↦ Had-marked id i s s' (mark_gid (some x) i s') (rw t refl) (rw t refl) h
          | inr f ↦
              Had-marked id i s s' (mark_gid (some x) i s')
                (rw f (ids_of-set s'.id_table i x (record x { isa_gid = true }) e refl)) (rw f refl)
                h
        ])
]

-- On a table in which every id is found: where get_uid or get_guid fails, the table has 65536 ids
-- without the one asked for. Else its index is the place of that id, the table is as before or
-- has the id behind, and every id is found.
pub get_owner_lem :
    (o : Owner) (s : Ids)
    → IsFiled s
    → ((get_owner o s ≡ none) × IsOut (number_of o) s)
      ⊎ ((i : ℕ) × (s' : Ids) × (get_owner o s ≡ some (i, s')) × Had (number_of o) i s s')
unfolding get_uid get_guid
get_owner_lem (uid n) s w = elim (have_id_lem n s w) [
  | inl (e, out) ↦ inl (rw e refl, out)
  | inr (i, s', e, h) ↦
      inr (i, mark_uid (get_elem? s'.id_table i) i s', rw e refl, mark_uid_lem n i s s' h)
]
get_owner_lem (gid n) s w = elim (have_id_lem n s w) [
  | inl (e, out) ↦ inl (rw e refl, out)
  | inr (i, s', e, h) ↦
      inr (i, mark_gid (get_elem? s'.id_table i) i s', rw e refl, mark_gid_lem n i s s' h)
]
