-- ===== src/Paths/Adding.antt =====
-- What add_path of squashfs-tools/unsquashfs.c does to a tree: it then selects what it selected
-- before, and what the target meets.
use squashfs_tools.Common.{
  ℕ, ◌≡◌, inl, inr, refl, sym, ap₂, ◌∙◌, Bool, true, false, ◌||◌, Option, some, List, [], ◌∷◌, ◌==◌,
  arith, Bool-cases,
}
use squashfs_tools.Paths.{
  Names, no_names, entry, Pathname, null, names, PathType, extract, exclude, link, Matcher,
  same_name, add_name,
}
use squashfs_tools.Paths.Semantics.{meets, selects, is_leaf, IsTree, IsSome}

pub same_name_lem : (s t : List ℕ) → same_name s t ≡ true → s ≡ t
same_name_lem [] [] h = refl
same_name_lem (a ∷ s) (b ∷ t) h = elim (Bool-cases (a == b)) [
  | inl e ↦
      let head : a ≡ b = ground arith in
      ap₂ (λ (x : ℕ) (l : List ℕ). x ∷ l) head (same_name_lem s t (sym (rw e refl) ∙ h))
  | inr e ↦ absurd (ground arith)
]
same_name_lem [] (b ∷ t) h = absurd (cc)
same_name_lem (a ∷ s) [] h = absurd (cc)

-- `after` selects what `before` selects, and what the target meets.
abbrev pub Picks : Matcher → Names → List (List ℕ) → Names → Type 0
Picks m before target after =
    (short : Bool) (path : List (List ℕ))
    → selects short m after path ≡ (meets short m target path || selects short m before path)

pub picks_leaf :
    (m : Matcher) (type : PathType) (t : List ℕ)
    → is_leaf type ≡ true
    → Picks m no_names (t ∷ []) (entry t type null no_names)
picks_leaf m type t leaf short [] = ground arith
picks_leaf m type t leaf short (c ∷ cs) = ground (arith, leaf)

pub picks_link :
    (m : Matcher) (t : List ℕ) (ts : List (List ℕ)) (ns : Names)
    → Picks m no_names ts ns
    → Picks m no_names (t ∷ ts) (entry t link (names ns) no_names)
picks_link m t ts ns h short [] = ground arith
picks_link m t ts ns h short (c ∷ cs) = ground (arith, h short cs)

pub picks_behind :
    (m : Matcher) (n t : List ℕ) (ts : List (List ℕ)) (u : PathType) (p : Pathname) (ns ns' : Names)
    → Picks m ns (t ∷ ts) ns'
    → Picks m (entry n u p ns) (t ∷ ts) (entry n u p ns')
picks_behind m n t ts u p ns ns' h short [] = ground arith
picks_behind m n t ts u p ns ns' h short (c ∷ cs) =
    let now = h short (c ∷ cs) in rw now (ground arith)

pub picks_same :
    (m : Matcher) (t : List ℕ) (ts : List (List ℕ)) (u : PathType) (p : Pathname) (ns : Names)
    → is_leaf u ≡ true
    → Picks m (entry t u p ns) (t ∷ ts) (entry t u p ns)
picks_same m t ts u p ns leaf short [] = ground arith
picks_same m t ts u p ns leaf short (c ∷ cs) = rw leaf (ground arith)

pub picks_over :
    (m : Matcher) (type : PathType) (t : List ℕ) (p : Pathname) (ns : Names)
    → is_leaf type ≡ true
    → Picks m (entry t link p ns) (t ∷ []) (entry t type null ns)
picks_over m type t p ns leaf short [] = ground arith
picks_over m type t p ns leaf short (c ∷ cs) = rw leaf (ground arith)

pub picks_below :
    (m : Matcher) (t : List ℕ) (ts : List (List ℕ)) (ns ns' rest : Names)
    → Picks m ns ts ns'
    → Picks m (entry t link (names ns) rest) (t ∷ ts) (entry t link (names ns') rest)
picks_below m t ts ns ns' rest h short [] = ground arith
picks_below m t ts ns ns' rest h short (c ∷ cs) = rw (h short cs) (ground arith)

-- The branches of add_name.
pub name_other :
    (m : Matcher) (type : PathType) (t target n : List ℕ) (again : Names → Option Names)
    (u : PathType) (p : Pathname) (ns ns' : Names)
    → same_name n t ≡ false
    → add_name m type t target again ns ≡ some ns'
    → add_name m type t target again (entry n u p ns) ≡ some (entry n u p ns')
unfolding add_name
name_other m type t target n again u p ns ns' e h = rw (e, add_name) (rw h refl)

pub name_leaf :
    (m : Matcher) (type : PathType) (t target n : List ℕ) (again : Names → Option Names)
    (u : PathType) (p : Pathname) (ns : Names)
    → same_name n t ≡ true
    → is_leaf u ≡ true
    → add_name m type t target again (entry n u p ns) ≡ some (entry n u p ns)
unfolding add_name
name_leaf m type t target n again extract p ns e leaf = rw (e, add_name) refl
name_leaf m type t target n again exclude p ns e leaf = rw (e, add_name) refl
name_leaf m type t target n again link p ns e leaf = absurd (cc)

pub name_over :
    (m : Matcher) (type : PathType) (t n : List ℕ) (again : Names → Option Names) (p : Pathname)
    (ns : Names)
    → same_name n t ≡ true
    → add_name m type t [] again (entry n link p ns) ≡ some (entry n type null ns)
unfolding add_name
name_over m type t n again p ns e = rw (e, add_name) refl

pub name_below :
    (m : Matcher) (type : PathType) (t n : List ℕ) (c : ℕ) (s : List ℕ)
    (again : Names → Option Names) (p p' ns : Names)
    → same_name n t ≡ true
    → again p ≡ some p'
    → add_name m type t (c ∷ s) again (entry n link (names p) ns)
      ≡ some (entry n link (names p') ns)
unfolding add_name
name_below m type t n c s again p p' ns e h = rw (e, add_name) (rw h refl)

pub name_new :
    (m : Matcher) (type : PathType) (t : List ℕ) (again : Names → Option Names)
    → m.compiles t ≡ true
    → add_name m type t [] again no_names ≡ some (entry t type null no_names)
unfolding add_name
name_new m type t again e = rw e refl

pub name_link :
    (m : Matcher) (type : PathType) (t : List ℕ) (c : ℕ) (s : List ℕ) (again : Names → Option Names)
    (p : Names)
    → m.compiles t ≡ true
    → again no_names ≡ some p
    → add_name m type t (c ∷ s) again no_names ≡ some (entry t link (names p) no_names)
unfolding add_name
name_link m type t c s again p e h = rw e (rw h refl)

-- What an addition promises.
pub record Added (m : Matcher) (type : PathType) (ns : Names) (target : List (List ℕ)) (ns' : Names)
    : Type 0 where
  pub tree : IsTree type ns'
  pub some : IsSome ns'
  pub picks : Picks m ns target ns'
