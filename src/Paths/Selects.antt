-- ===== src/Paths/Selects.antt =====
-- What extract_matches and exclude_matches of squashfs-tools/unsquashfs.c leave of a set at a name.
use squashfs_tools.Common.{
  ℕ, ◌<◌, ◌≡◌, inl, inr, refl, Bool, true, false, ◌&&◌, ◌||◌, Option, none, some, List, [], ◌∷◌,
  length, arith,
}
use squashfs_tools.Paths.{
  Names, no_names, entry, PathType, extract, exclude, Matcher, extract_matches, exclude_matches,
}
use squashfs_tools.Paths.Semantics.{any_selects}
use squashfs_tools.Paths.Scanning.{AreTrees, scan_paths_lem}

-- A set of trees, or NULL, which stands for `all`.
abbrev pub IsSearch : PathType → Option (List Names) → Type 0
IsSearch type none = Unit
IsSearch type (some trees) = (0 < length trees) × AreTrees type trees

abbrev pub picks : Bool → Bool → Matcher → Option (List Names) → List (List ℕ) → Bool
picks all short m none path = all
picks all short m (some trees) path = any_selects short m trees path

pub any_selects-end :
    (short : Bool) (m : Matcher) (type : PathType) (trees : List Names)
    → AreTrees type trees
    → 0 < length trees
    → any_selects short m trees [] ≡ short
any_selects-end short m type [] w h = absurd (omega arith)
any_selects-end short m type (no_names ∷ trees) ((wt, ws), w) h = elim ws [ ]
any_selects-end short m type (entry n t p ns ∷ []) w h = ground arith
any_selects-end short m type (entry n t p ns ∷ ns' ∷ trees) (wt, w) h =
    rw (any_selects-end short m type (ns' ∷ trees) w (omega arith)) (ground arith)

-- A name that is extracted, and the trees that are left below it.
pub record Extracted (m : Matcher) (extracts : Option (List Names)) (name : List ℕ) (wanted : Bool)
    (newt : Option (List Names)) : Type 0 where
  pub done : extract_matches m extracts name ≡ (wanted, newt)
  pub set : IsSearch extract newt
  pub same :
      (short : Bool) (path : List (List ℕ))
      → picks true short m extracts (name ∷ path) ≡ (wanted && picks true short m newt path)

pub extract_matches_lem :
    (m : Matcher) (extracts : Option (List Names)) (name : List ℕ)
    → IsSearch extract extracts
    → (wanted : Bool) × (newt : Option (List Names)) × Extracted m extracts name wanted newt
unfolding extract_matches
extract_matches_lem m none name w =
    (true, none, record { done = refl; set = tt; same = λ short path. refl })
extract_matches_lem m (some trees) name (n, w) =
    elim (scan_paths_lem m extract name trees [] refl w) [
      | inl (h, s) ↦
          (true, none, record { done = rw h refl; set = tt; same = λ short path. s short path })
      | inr ([], h, wm, s) ↦
          (false, none, record { done = rw h refl; set = tt; same = λ short path. s short path })
      | inr (ns ∷ more, h, wm, s) ↦ (
        true,
        some (ns ∷ more),
        record { done = rw h refl; set = (omega arith, wm); same = λ short path. s short path },
      )
    ]

pub record Excluded (m : Matcher) (excludes : Option (List Names)) (name : List ℕ) (excluded : Bool)
    (newc : Option (List Names)) : Type 0 where
  pub done : exclude_matches m excludes name ≡ (excluded, newc)
  pub set : IsSearch exclude newc
  pub same :
      (short : Bool) (path : List (List ℕ))
      → picks false short m excludes (name ∷ path) ≡ (excluded || picks false short m newc path)

pub exclude_matches_lem :
    (m : Matcher) (excludes : Option (List Names)) (name : List ℕ)
    → IsSearch exclude excludes
    → (excluded : Bool) × (newc : Option (List Names)) × Excluded m excludes name excluded newc
unfolding exclude_matches
exclude_matches_lem m none name w =
    (false, none, record { done = refl; set = tt; same = λ short path. refl })
exclude_matches_lem m (some trees) name (n, w) =
    elim (scan_paths_lem m exclude name trees [] refl w) [
      | inl (h, s) ↦
          (true, none, record { done = rw h refl; set = tt; same = λ short path. s short path })
      | inr ([], h, wm, s) ↦
          (false, none, record { done = rw h refl; set = tt; same = λ short path. s short path })
      | inr (ns ∷ more, h, wm, s) ↦ (
        false,
        some (ns ∷ more),
        record { done = rw h refl; set = (omega arith, wm); same = λ short path. s short path },
      )
    ]
