-- ===== src/Paths/Chosen.antt =====
-- Which files unsquashfs scans and takes, by the targets of its command line.
use mathlib.Core.Path.{subst}
use squashfs_tools.Common.{
  ℕ, ◌<◌, ◌≡◌, ◌⊎◌, inl, inr, refl, sym, ◌∙◌, Bool, true, false, not, ◌&&◌, ◌||◌, Option, none,
  some, List, [], ◌∷◌, length, if◌then◌else◌, arith, All,
}
use squashfs_tools.Paths.{
  Names, no_names, entry, PathType, extract, exclude, Matcher, add_targets, extract_matches,
  exclude_matches, scan_to,
}
use squashfs_tools.Paths.Semantics.{any_meets, selects, IsTree, IsSome}
use squashfs_tools.Paths.Targets.{IsTarget, texts, add_targets_lem}
use squashfs_tools.Paths.Selects.{
  Extracted, Excluded, IsSearch, picks, any_selects-end, extract_matches_lem, exclude_matches_lem,
}

-- Whether pre_scan comes to a path, and whether it is a file's that it counts.
abbrev pub is_scanned : Option (Option (List Names)) → Bool
is_scanned none = false
is_scanned (some newt) = true

abbrev pub is_taken : Option (Option (List Names)) → Bool
is_taken none = false
is_taken (some none) = true
is_taken (some (some trees)) = false

-- pre_scan along a path, by what the sets pick.
abbrev IsScan :
    Matcher
    → Option (List Names)
    → Option (List Names)
    → List (List ℕ)
    → Option (Option (List Names))
    → Type 0
IsScan m extracts excludes path r =
    (is_scanned r ≡ (picks true true m extracts path && not (picks false false m excludes path)))
    × (is_taken r ≡ (picks true false m extracts path && not (picks false false m excludes path)))

no_end :
    (m : Matcher) (type : PathType) (excludes : Option (List Names))
    → IsSearch type excludes
    → picks false false m excludes [] ≡ false
no_end m type none w = refl
no_end m type (some trees) (n, w) = any_selects-end false m type trees w n

at_path_end :
    (m : Matcher) (extracts excludes : Option (List Names))
    → IsSearch extract extracts
    → IsSearch exclude excludes
    → IsScan m extracts excludes [] (some extracts)
at_path_end m none excludes w x =
    (rw (no_end m exclude excludes x) refl, rw (no_end m exclude excludes x) refl)
at_path_end m (some trees) excludes (n, w) x = (
  rw (no_end m exclude excludes x, any_selects-end true m extract trees w n) refl,
  rw (no_end m exclude excludes x, any_selects-end false m extract trees w n) refl,
)

at_path_name :
    (m : Matcher) (extracts excludes newt newc : Option (List Names)) (name : List ℕ)
    (path : List (List ℕ)) (wanted excluded : Bool)
    → Extracted m extracts name wanted newt
    → Excluded m excludes name excluded newc
    → IsScan m newt newc path (scan_to m newt newc path)
    → IsScan m extracts excludes
        (name ∷ path)
        (if wanted then (if excluded then none else scan_to m newt newc path) else none)
at_path_name m extracts excludes newt newc name path false excluded e x h =
    (rw (e.same true path) refl, rw (e.same false path) refl)
at_path_name m extracts excludes newt newc name path true true e x h = (
  rw (e.same true path, x.same false path) (ground arith),
  rw (e.same false path, x.same false path) (ground arith),
)
at_path_name m extracts excludes newt newc name path true false e x (h, h') =
    (rw (e.same true path, x.same false path) h, rw (e.same false path, x.same false path) h')

scan_to_here :
    (m : Matcher) (extracts excludes : Option (List Names))
    → scan_to m extracts excludes [] ≡ some extracts
unfolding scan_to
scan_to_here m extracts excludes = refl

scan_to_step :
    (m : Matcher) (extracts excludes newt newc : Option (List Names)) (name : List ℕ)
    (path : List (List ℕ)) (wanted excluded : Bool)
    → extract_matches m extracts name ≡ (wanted, newt)
    → exclude_matches m excludes name ≡ (excluded, newc)
    → scan_to m extracts excludes (name ∷ path)
      ≡ (if wanted then (if excluded then none else scan_to m newt newc path) else none)
unfolding scan_to
scan_to_step m extracts excludes newt newc name path wanted excluded h h' = rw (h, h', scan_to) refl

scan_to_lem :
    (m : Matcher) (extracts excludes : Option (List Names)) (path : List (List ℕ))
    → IsSearch extract extracts
    → IsSearch exclude excludes
    → IsScan m extracts excludes path (scan_to m extracts excludes path)
scan_to_lem m extracts excludes [] w x =
    subst (IsScan m extracts excludes []) (sym (scan_to_here m extracts excludes))
      (at_path_end m extracts excludes w x)
scan_to_lem m extracts excludes (name ∷ path) w x =
    let (wanted, newt, e) = extract_matches_lem m extracts name w in
    let (excluded, newc, x') = exclude_matches_lem m excludes name x in
    let rest =
      at_path_name m extracts excludes newt newc name path wanted excluded e x'
        (scan_to_lem m newt newc path e.set x'.set) in
    subst (IsScan m extracts excludes (name ∷ path))
      (sym (scan_to_step m extracts excludes newt newc name path wanted excluded e.done x'.done))
      rest

-- What the main function makes of the targets: NULL where there are none.
abbrev pub search_set : Names → Option (List Names)
search_set no_names = none
search_set (entry n t paths ns) = some (entry n t paths ns ∷ [])

-- With no target, everything is to be extracted.
abbrev pub chosen : Bool → Matcher → List (List (List ℕ)) → List (List ℕ) → Bool
chosen short m [] path = true
chosen short m (t ∷ targets) path = any_meets short m (t ∷ targets) path

excludes_of :
    (short : Bool) (m : Matcher) (targets : List (List (List ℕ))) (ns : Names)
    (path : List (List ℕ))
    → selects short m ns path ≡ (any_meets short m targets path || false)
    → picks false short m (search_set ns) path ≡ any_meets short m targets path
excludes_of short m targets no_names path h = ground (arith, h)
excludes_of short m targets (entry n t p ns) path h = rw h (ground arith)

chosen_of :
    (short : Bool) (m : Matcher) (targets : List (List (List ℕ))) (ns : Names)
    (path : List (List ℕ))
    → selects short m ns path ≡ (any_meets short m targets path || false)
    → ((targets ≡ []) × (ns ≡ no_names)) ⊎ ((0 < length targets) × IsSome ns)
    → picks true short m (search_set ns) path ≡ chosen short m targets path
chosen_of short m targets ns path h (inl (e, e')) = rw (e, e') refl
chosen_of short m [] ns path h (inr (n, i)) = absurd (omega arith)
chosen_of short m (t ∷ targets) no_names path h (inr (n, i)) = elim i [ ]
chosen_of short m (t ∷ targets) (entry n u p ns) path h (inr k) = rw h (ground arith)

set_of : (type : PathType) (ns : Names) → IsTree type ns → IsSearch type (search_set ns)
set_of type no_names w = tt
set_of type (entry n t p ns) w = (omega arith, ((w, tt), tt))

add_no_targets : (m : Matcher) (type : PathType) (ns : Names) → add_targets m type [] ns ≡ some ns
unfolding add_targets
add_no_targets m type ns = refl

extract_targets_lem :
    (m : Matcher) (k : ℕ) (targets : List (List (List ℕ)))
    → All (IsTarget m) targets
    → (ns : Names) × (add_targets m extract (texts k targets) no_names ≡ some ns)
      × IsTree extract ns
      × ((short : Bool) (path : List (List ℕ))
          → picks true short m (search_set ns) path ≡ chosen short m targets path)
extract_targets_lem m k [] good =
    (no_names, add_no_targets m extract no_names, tt, λ short path. refl)
extract_targets_lem m k (t ∷ targets) good =
    let (ns, h, w, s, i) = add_targets_lem m extract k (t ∷ targets) no_names refl good tt in
    let whole : IsSome ns = i (inl (omega arith)) in
    (
      ns,
      h,
      w,
      λ short path.
          chosen_of short m (t ∷ targets) ns path (s short path) (inr (omega arith, whole)),
    )

-- Of extract and exclude targets whose components have characters, no slash and are taken by
-- regcomp, with k + 1 slashes between the components and k behind, add_path builds trees, without
-- an error. With these, however names are matched: pre_scan comes to a path exactly when there is
-- no extract target, or one whose components match those of the path as far as both go, and no
-- exclude target matches a front of the path. It takes the path for a file exactly when there is
-- no extract target, or one matches a front of the path, and again no exclude target does.
pub add_targets-scan_to :
    (m : Matcher) (k : ℕ) (extracts excludes : List (List (List ℕ))) (path : List (List ℕ))
    → All (IsTarget m) extracts
    → All (IsTarget m) excludes
    → (ns ns' : Names) × (add_targets m extract (texts k extracts) no_names ≡ some ns)
      × (add_targets m exclude (texts k excludes) no_names ≡ some ns')
      × (is_scanned (scan_to m (search_set ns) (search_set ns') path)
          ≡ (chosen true m extracts path && not (any_meets false m excludes path)))
      × (is_taken (scan_to m (search_set ns) (search_set ns') path)
          ≡ (chosen false m extracts path && not (any_meets false m excludes path)))
add_targets-scan_to m k extracts excludes path good good' =
    let (ns, h, w, s) = extract_targets_lem m k extracts good in
    let (ns', h', w', s', i') = add_targets_lem m exclude k excludes no_names refl good' tt in
    let (scanned, taken) =
      scan_to_lem m (search_set ns) (search_set ns') path (set_of extract ns w)
        (set_of exclude ns' w') in
    let out : picks false false m (search_set ns') path ≡ any_meets false m excludes path =
      excludes_of false m excludes ns' path (s' false path) in
    (ns, ns', h, h', scanned ∙ rw (s true path, out) refl, taken ∙ rw (s false path, out) refl)
