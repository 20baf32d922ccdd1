-- ===== src/Paths/Semantics.antt =====
-- Which paths the entries of squashfs-tools/unsquashfs.c's search trees select, and how targets meet
-- paths by their components.
use squashfs_tools.Common.{ℕ, ◌≡◌, Bool, true, false, ◌&&◌, ◌||◌, List, [], ◌∷◌}
use squashfs_tools.Paths.{Names, no_names, entry, Pathname, null, names, PathType, link, Matcher}

-- Each component of the target matches the one of the path, as far as both go; where the path ends
-- first, the answer is `short`.
abbrev pub meets : Bool → Matcher → List (List ℕ) → List (List ℕ) → Bool
meets short m [] path = true
meets short m (t ∷ ts) [] = short
meets short m (t ∷ ts) (c ∷ cs) = m.matches t c && meets short m ts cs

abbrev pub any_meets : Bool → Matcher → List (List (List ℕ)) → List (List ℕ) → Bool
any_meets short m [] path = false
any_meets short m (t ∷ targets) path = meets short m t path || any_meets short m targets path

abbrev pub is_leaf : PathType → Bool
is_leaf link = false
is_leaf t = true

-- The same of a tree: a leaf, or where the path ends first, an entry with `short`.
abbrev mutual
  pub selects : Bool → Matcher → Names → List (List ℕ) → Bool
  selects short m no_names path = false
  selects short m (entry n t paths ns) [] = short
  selects short m (entry n t paths ns) (c ∷ cs) =
      (m.matches n c && (is_leaf t || selects_below short m paths cs))
      || selects short m ns (c ∷ cs)

  pub selects_below : Bool → Matcher → Pathname → List (List ℕ) → Bool
  selects_below short m null cs = false
  selects_below short m (names ns) cs = selects short m ns cs

abbrev pub any_selects : Bool → Matcher → List Names → List (List ℕ) → Bool
any_selects short m [] path = false
any_selects short m (ns ∷ trees) path = selects short m ns path || any_selects short m trees path

abbrev pub IsSome : Names → Type 0
IsSome no_names = ⊥
IsSome (entry n t paths ns) = Unit

-- The entries of a tree that add_path builds for one type: a link has entries below it.
abbrev mutual
  pub IsTree : PathType → Names → Type 0
  IsTree type no_names = Unit
  IsTree type (entry n t paths ns) = IsEntry type t paths × IsTree type ns

  pub IsEntry : PathType → PathType → Pathname → Type 0
  IsEntry type t null = t ≡ type
  IsEntry type t (names ns) = (t ≡ link) × IsSome ns × IsTree type ns
