-- ===== src/Paths/Entries.antt =====
-- The entry of a component in a tree of squashfs-tools/unsquashfs.c: added, kept, or replaced.
use mathlib.Core.Path.{subst}
use squashfs_tools.Common.{
  ℕ, ◌≡◌, ◌≢◌, inl, inr, refl, true, Option, some, List, [], ◌∷◌, Bool-cases,
}
use squashfs_tools.Paths.{
  Names, no_names, entry, Pathname, null, names, PathType, extract, exclude, link, Matcher,
  same_name, add_name,
}
use squashfs_tools.Paths.Adding.{
  Picks, Added, name_other, name_leaf, name_over, name_below, name_new, name_link, same_name_lem,
  picks_leaf, picks_link, picks_behind, picks_same, picks_over, picks_below,
}
use squashfs_tools.Paths.Semantics.{is_leaf, IsTree, IsEntry}

-- The component is there already, as a leaf.
add_same :
    (m : Matcher) (type : PathType) (t target : List ℕ) (ts : List (List ℕ)) (n : List ℕ)
    (again : Names → Option Names) (u : PathType) (p : Pathname) (ns : Names)
    → same_name n t ≡ true
    → is_leaf u ≡ true
    → IsTree type (entry n u p ns)
    → (ns' : Names) × (add_name m type t target again (entry n u p ns) ≡ some ns')
      × Added m type (entry n u p ns) (t ∷ ts) ns'
add_same m type t target ts n again u p ns e leaf w = (
  entry n u p ns,
  name_leaf m type t target n again u p ns e leaf,
  record {
    tree = w;
    some = tt;
    picks =
        subst (λ k. Picks m (entry n u p ns) (k ∷ ts) (entry n u p ns)) (same_name_lem n t e)
          (picks_same m n ts u p ns leaf);
  },
)

add_over :
    (m : Matcher) (type : PathType) (t n : List ℕ) (again : Names → Option Names) (p : Pathname)
    (ns : Names)
    → is_leaf type ≡ true
    → same_name n t ≡ true
    → IsTree type (entry n link p ns)
    → (ns' : Names) × (add_name m type t [] again (entry n link p ns) ≡ some ns')
      × Added m type (entry n link p ns) (t ∷ []) ns'
add_over m type t n again p ns leaf e (we, w) = (
  entry n type null ns,
  name_over m type t n again p ns e,
  record {
    tree = (refl, w);
    some = tt;
    picks =
        subst (λ k. Picks m (entry n link p ns) (k ∷ []) (entry n type null ns))
          (same_name_lem n t e) (picks_over m type n p ns leaf);
  },
)

pub add_leaf :
    (m : Matcher) (type : PathType) (t : List ℕ) (again : Names → Option Names) (ns : Names)
    → is_leaf type ≡ true
    → m.compiles t ≡ true
    → IsTree type ns
    → (ns' : Names) × (add_name m type t [] again ns ≡ some ns') × Added m type ns (t ∷ []) ns'
add_leaf m type t again no_names leaf good w = (
  entry t type null no_names,
  name_new m type t again good,
  record { tree = (refl, tt); some = tt; picks = picks_leaf m type t leaf },
)
add_leaf m type t again (entry n u p ns) leaf good (we, w) = elim (Bool-cases (same_name n t)) [
  | inr e ↦
      let (ns', h, a) = add_leaf m type t again ns leaf good w in
      (
        entry n u p ns',
        name_other m type t [] n again u p ns ns' e h,
        record { tree = (we, a.tree); some = tt; picks = picks_behind m n t [] u p ns ns' a.picks },
      )
  | inl e ↦
      (elim u
          as (λ v.
            IsEntry type v p
            → (ns' : Names) × (add_name m type t [] again (entry n v p ns) ≡ some ns')
              × Added m type (entry n v p ns) (t ∷ []) ns') [
                | extract ↦ λ we'. add_same m type t [] [] n again extract p ns e refl (we', w)
                | exclude ↦ λ we'. add_same m type t [] [] n again exclude p ns e refl (we', w)
                | link ↦ λ we'. add_over m type t n again p ns leaf e (we', w)
              ])
        we
]

-- What the recursive call promises.
abbrev pub Again : Matcher → PathType → (Names → Option Names) → List (List ℕ) → Type 0
Again m type again ts =
    (ns : Names) → IsTree type ns → (ns' : Names) × (again ns ≡ some ns') × Added m type ns ts ns'

add_below :
    (m : Matcher) (type : PathType) (t n : List ℕ) (c : ℕ) (s : List ℕ) (ts : List (List ℕ))
    (again : Names → Option Names) (p : Pathname) (ns : Names)
    → is_leaf type ≡ true
    → Again m type again ts
    → same_name n t ≡ true
    → IsTree type (entry n link p ns)
    → (ns' : Names) × (add_name m type t (c ∷ s) again (entry n link p ns) ≡ some ns')
      × Added m type (entry n link p ns) (t ∷ ts) ns'
add_below m type t n c s ts again null ns leaf more e (we, w) =
    absurd (subst (λ (v : PathType). is_leaf v ≢ true) we (λ h. absurd (cc)) leaf)
add_below m type t n c s ts again (names q) ns leaf more e ((we, ws, wt), w) =
    let (q', h, a) = more q wt in
    (
      entry n link (names q') ns,
      name_below m type t n c s again q q' ns e h,
      record {
        tree = ((refl, a.some, a.tree), w);
        some = tt;
        picks =
            subst (λ k. Picks m (entry n link (names q) ns) (k ∷ ts) (entry n link (names q') ns))
              (same_name_lem n t e) (picks_below m n ts q q' ns a.picks);
      },
    )

pub add_deep :
    (m : Matcher) (type : PathType) (t : List ℕ) (c : ℕ) (s : List ℕ) (ts : List (List ℕ))
    (again : Names → Option Names) (ns : Names)
    → is_leaf type ≡ true
    → m.compiles t ≡ true
    → Again m type again ts
    → IsTree type ns
    → (ns' : Names) × (add_name m type t (c ∷ s) again ns ≡ some ns') × Added m type ns (t ∷ ts) ns'
add_deep m type t c s ts again no_names leaf good more w =
    let (q, h, a) = more no_names tt in
    (
      entry t link (names q) no_names,
      name_link m type t c s again q good h,
      record {
        tree = ((refl, a.some, a.tree), tt);
        some = tt;
        picks = picks_link m t ts q a.picks;
      },
    )
add_deep m type t c s ts again (entry n u p ns) leaf good more (we, w) =
    elim (Bool-cases (same_name n t)) [
      | inr e ↦
          let (ns', h, a) = add_deep m type t c s ts again ns leaf good more w in
          (
            entry n u p ns',
            name_other m type t (c ∷ s) n again u p ns ns' e h,
            record {
              tree = (we, a.tree);
              some = tt;
              picks = picks_behind m n t ts u p ns ns' a.picks;
            },
          )
      | inl e ↦
          (elim u
              as (λ v.
                IsEntry type v p
                → (ns' : Names) × (add_name m type t (c ∷ s) again (entry n v p ns) ≡ some ns')
                  × Added m type (entry n v p ns) (t ∷ ts) ns') [
                    | extract ↦
                        λ we'. add_same m type t (c ∷ s) ts n again extract p ns e refl (we', w)
                    | exclude ↦
                        λ we'. add_same m type t (c ∷ s) ts n again exclude p ns e refl (we', w)
                    | link ↦ λ we'. add_below m type t n c s ts again p ns leaf more e (we', w)
                  ])
            we
    ]
