-- ===== src/Paths/Scanning.antt =====
-- What extract_matches and exclude_matches of squashfs-tools/unsquashfs.c keep of the trees at a name.
use mathlib.Core.Path.{subst}
use mathlib.Core.List.{append_assoc, append-nil}
use squashfs_tools.Common.{
  ℕ, ◌≡◌, ◌⊎◌, inl, inr, refl, sym, ap, ◌∙◌, Bool, true, false, ◌||◌, Option, none, some, List, [],
  ◌∷◌, ◌++◌, arith, All, All-append, Bool-cases,
}
use squashfs_tools.Paths.{
  Names, no_names, entry, Pathname, null, names, PathType, extract, exclude, link, is_type, Matcher,
  scan_names, scan_paths,
}
use squashfs_tools.Paths.Semantics.{selects, any_selects, is_leaf, IsTree, IsEntry, IsSome}

abbrev pub AreTrees : PathType → List Names → Type 0
AreTrees type trees = All (λ ns. IsTree type ns × IsSome ns) trees

-- What a loop found: a leaf, or the trees below the links, which are added to `new`.
abbrev pub Found :
    Matcher → PathType → ((Bool → List (List ℕ) → Bool)) → List Names → Option (List Names) → Type 0
Found m type picks new result =
    ((result ≡ none) × ((short : Bool) (path : List (List ℕ)) → picks short path ≡ true))
    ⊎ ((more : List Names) × (result ≡ some (new ++ more))
        × AreTrees type more
        × ((short : Bool) (path : List (List ℕ))
            → picks short path ≡ any_selects short m more path))

names_past :
    (m : Matcher) (type : PathType) (name n : List ℕ) (t : PathType) (p : Pathname) (ns : Names)
    (new : List Names)
    → m.matches n name ≡ false
    → scan_names m type name (entry n t p ns) new ≡ scan_names m type name ns new
unfolding scan_names
names_past m type name n t p ns new e = rw (e, scan_names) refl

names_leaf :
    (m : Matcher) (type : PathType) (name n : List ℕ) (t : PathType) (p : Pathname) (ns : Names)
    (new : List Names)
    → m.matches n name ≡ true
    → is_type t type ≡ true
    → scan_names m type name (entry n t p ns) new ≡ none
unfolding scan_names
names_leaf m type name n t p ns new e h = rw (e, scan_names) (rw (h, scan_names) refl)

scan_linked :
    (m : Matcher) (type : PathType) (name n : List ℕ) (p : Names) (ns : Names) (new : List Names)
    → m.matches n name ≡ true
    → is_leaf type ≡ true
    → scan_names m type name (entry n link (names p) ns) new
      ≡ scan_names m type name ns (new ++ (p ∷ []))
unfolding scan_names
scan_linked m extract name n p ns new e h = rw (e, scan_names) refl
scan_linked m exclude name n p ns new e h = rw (e, scan_names) refl
scan_linked m link name n p ns new e h = absurd (cc)

is_type_refl : (t : PathType) → is_type t t ≡ true
is_type_refl extract = refl
is_type_refl exclude = refl
is_type_refl link = refl

names_none :
    (m : Matcher) (type : PathType) (name : List ℕ) (new : List Names)
    → scan_names m type name no_names new ≡ some (new ++ [])
unfolding scan_names
names_none m type name new = ap some (sym (append-nil new))

-- A link that matches: what is below it comes in front of what the rest of the entries add.
below_linked :
    (m : Matcher) (type : PathType) (name n : List ℕ) (q ns : Names) (new : List Names)
    → is_leaf type ≡ true
    → m.matches n name ≡ true
    → IsTree type q
    → IsSome q
    → Found m type
        (λ short path. selects short m ns (name ∷ path))
        (new ++ (q ∷ []))
        (scan_names m type name ns (new ++ (q ∷ [])))
    → Found m type
        (λ short path. selects short m (entry n link (names q) ns) (name ∷ path))
        new
        (scan_names m type name (entry n link (names q) ns) new)
below_linked m type name n q ns new leaf e wq sq (inl (h, s)) =
    inl (
      scan_linked m type name n q ns new e leaf ∙ h,
      λ short path. rw (s short path) (ground arith),
    )
below_linked m type name n q ns new leaf e wq sq (inr (more, h, trees, s)) = inr (
  q ∷ more,
  scan_linked m type name n q ns new e leaf ∙ h ∙ ap some (append_assoc new (q ∷ []) more),
  ((wq, sq), trees),
  λ short path. rw (e, s short path) refl,
)

at_leaf :
    (m : Matcher) (type t : PathType) (name n : List ℕ) (p : Pathname) (ns : Names)
    (new : List Names)
    → is_leaf type ≡ true
    → m.matches n name ≡ true
    → t ≡ type
    → Found m type
        (λ short path. selects short m (entry n t p ns) (name ∷ path))
        new
        (scan_names m type name (entry n t p ns) new)
at_leaf m type t name n p ns new leaf e same =
    let leaf' : is_leaf t ≡ true = rw same leaf in
    inl (
      names_leaf m type name n t p ns new e (rw same (is_type_refl type)),
      λ short path. rw (e, leaf') refl,
    )

scan_names_lem :
    (m : Matcher) (type : PathType) (name : List ℕ) (ns : Names) (new : List Names)
    → is_leaf type ≡ true
    → IsTree type ns
    → Found m type
        (λ short path. selects short m ns (name ∷ path))
        new
        (scan_names m type name ns new)
scan_names_lem m type name no_names new leaf w =
    inr ([], names_none m type name new, tt, λ short path. refl)
scan_names_lem m type name (entry n t p ns) new leaf (we, w) =
    elim (Bool-cases (m.matches n name)) [
      | inr e ↦ elim (scan_names_lem m type name ns new leaf w) [
        | inl (h, s) ↦
            inl (names_past m type name n t p ns new e ∙ h, λ short path. rw (e, s short path) refl)
        | inr (more, h, trees, s) ↦ inr (
          more,
          names_past m type name n t p ns new e ∙ h,
          trees,
          λ short path. rw e (s short path),
        )
      ]
      | inl e ↦
          (elim p
              as (λ v.
                IsEntry type t v
                → Found m type (λ short path. selects short m (entry n t v ns) (name ∷ path)) new
                    (scan_names m type name (entry n t v ns) new)) [
                      | null ↦ λ same. at_leaf m type t name n null ns new leaf e same
                      | names q ↦ λ (we' : IsEntry type t (names q)).
                          let found =
                            below_linked m type name n q ns new leaf e we'.2 we'.1
                              (scan_names_lem m type name ns (new ++ (q ∷ [])) leaf w) in
                          subst
                            (λ (v : PathType).
                              Found m type
                                (λ short path.
                                  selects short m (entry n v (names q) ns) (name ∷ path))
                                new (scan_names m type name (entry n v (names q) ns) new))
                            (sym we'.0) found
                    ])
            we
    ]

paths_none :
    (m : Matcher) (type : PathType) (name : List ℕ) (ns : Names) (trees new : List Names)
    → scan_names m type name ns new ≡ none
    → scan_paths m type name (ns ∷ trees) new ≡ none
unfolding scan_paths
paths_none m type name ns trees new h = rw h refl

paths_some :
    (m : Matcher) (type : PathType) (name : List ℕ) (ns : Names) (trees new new' : List Names)
    → scan_names m type name ns new ≡ some new'
    → scan_paths m type name (ns ∷ trees) new ≡ scan_paths m type name trees new'
unfolding scan_paths
paths_some m type name ns trees new new' h = rw (h, scan_paths) refl

paths_end :
    (m : Matcher) (type : PathType) (name : List ℕ) (new : List Names)
    → scan_paths m type name [] new ≡ some (new ++ [])
unfolding scan_paths
paths_end m type name new = ap some (sym (append-nil new))

any_selects-append :
    (short : Bool) (m : Matcher) (xs ys : List Names) (path : List (List ℕ))
    → any_selects short m (xs ++ ys) path
      ≡ (any_selects short m xs path || any_selects short m ys path)
any_selects-append short m [] ys path = refl
any_selects-append short m (x ∷ xs) ys path =
    rw (any_selects-append short m xs ys path) (ground arith)

pub scan_paths_lem :
    (m : Matcher) (type : PathType) (name : List ℕ) (trees new : List Names)
    → is_leaf type ≡ true
    → AreTrees type trees
    → Found m type
        (λ short path. any_selects short m trees (name ∷ path))
        new
        (scan_paths m type name trees new)
scan_paths_lem m type name [] new leaf w =
    inr ([], paths_end m type name new, tt, λ short path. refl)
scan_paths_lem m type name (ns ∷ trees) new leaf ((wn, sn), w) =
    elim (scan_names_lem m type name ns new leaf wn) [
      | inl (h, s) ↦
          inl (paths_none m type name ns trees new h, λ short path. rw (s short path) refl)
      | inr (more, h, wm, s) ↦ elim (scan_paths_lem m type name trees (new ++ more) leaf w) [
        | inl (h', s') ↦ inl (
          paths_some m type name ns trees new (new ++ more) h ∙ h',
          λ short path. rw (s' short path) (ground arith),
        )
        | inr (more', h', wm', s') ↦ inr (
          more ++ more',
          paths_some m type name ns trees new (new ++ more) h
              ∙ h'
              ∙ ap some (append_assoc new more more'),
          All-append (λ ns. IsTree type ns × IsSome ns) more more' wm wm',
          λ short path.
              rw (s short path, s' short path) (sym (any_selects-append short m more more' path)),
        )
      ]
    ]
