-- ===== src/Paths/Targets.antt =====
-- The trees that unsquashfs builds of its targets, by add_path of squashfs-tools/unsquashfs.c.
use squashfs_tools.Common.{
  ℕ, zero, suc, ◌+◌, ◌≤◌, ◌<◌, ◌≡◌, ◌⊎◌, inl, inr, refl, ◌∙◌, Bool, true, ◌||◌, some, List, [], ◌∷◌,
  ◌++◌, length, arith, All, All-map, length-append, replicate,
}
use squashfs_tools.Paths.{Names, PathType, Matcher, add_name, add_path, add_target, add_targets}
use squashfs_tools.Paths.Strings.{text, get_component_lem, IsName, gap}
use squashfs_tools.Paths.Adding.{Added}
use squashfs_tools.Paths.Entries.{Again, add_leaf, add_deep}
use squashfs_tools.Paths.Semantics.{selects, is_leaf, IsTree, IsSome, any_meets}

-- The target has components, each with characters and no slash, which regcomp takes.
abbrev pub IsTarget : Matcher → List (List ℕ) → Type 0
IsTarget m ts = (0 < length ts) × All (λ t. IsName t × (m.compiles t ≡ true)) ts

names_good :
    (m : Matcher) (ts : List (List ℕ))
    → All (λ t. IsName t × (m.compiles t ≡ true)) ts
    → All IsName ts
names_good m ts h = All-map (λ t. IsName t × (m.compiles t ≡ true)) IsName ts (λ t p. p.0) h

add_path_step :
    (m : Matcher) (type : PathType) (k depth : ℕ) (t : List ℕ) (ts : List (List ℕ)) (ns ns' : Names)
    → IsName t
    → All IsName ts
    → add_name m type t (text k ts) (λ ns. add_path m type depth (text k ts) ns) ns ≡ some ns'
    → add_path m type (suc depth) (text k (t ∷ ts)) ns ≡ some ns'
unfolding add_path
add_path_step m type k depth t ts ns ns' p q h = rw (get_component_lem k t ts p q) h

pub add_path_lem :
    (m : Matcher) (type : PathType) (k depth : ℕ) (ts : List (List ℕ)) (ns : Names)
    → is_leaf type ≡ true
    → IsTarget m ts
    → length ts ≤ depth
    → IsTree type ns
    → (ns' : Names) × (add_path m type depth (text k ts) ns ≡ some ns') × Added m type ns ts ns'
add_path_lem m type k depth [] ns leaf (h, good) n w = elim h [ ]
add_path_lem m type k zero (t ∷ ts) ns leaf good n w = absurd (omega arith)
add_path_lem m type k (suc depth) (t ∷ []) ns leaf (h, ((name, good), goods)) n w =
    let (ns', h', a) = add_leaf m type t (λ ns. add_path m type depth [] ns) ns leaf good w in
    (ns', add_path_step m type k depth t [] ns ns' name tt h', a)
add_path_lem m type k (suc depth) (t ∷ [] ∷ ts) ns leaf (h, (good, ((empty, _), goods))) n w =
    absurd (omega arith)
add_path_lem m type k (suc depth) (t ∷ (c ∷ u) ∷ ts) ns leaf (h, ((name, good), goods)) n w =
    let rest = (c ∷ u) ∷ ts in
    let more : Again m type (λ ns. add_path m type depth (text k rest) ns) rest =
      λ ns0 w0. add_path_lem m type k depth rest ns0 leaf (omega arith, goods) (omega arith) w0 in
    let (ns', h', a) =
      add_deep m type t c (u ++ (replicate (gap k ts) b'/' ++ text k ts)) rest
        (λ ns. add_path m type depth (text k rest) ns) ns leaf good more w in
    (ns', add_path_step m type k depth t rest ns ns' name (names_good m rest goods) h', a)

length-text :
    (m : Matcher) (k : ℕ) (ts : List (List ℕ))
    → All (λ t. IsName t × (m.compiles t ≡ true)) ts
    → length ts ≤ length (text k ts)
length-text m k [] h = omega arith
length-text m k (t ∷ ts) (((p, _), _), h) = omega (
  arith,
  length-text m k ts h,
  length-append {0} t (replicate (gap k ts) b'/' ++ text k ts),
  length-append {0} (replicate (gap k ts) b'/') (text k ts),
)

abbrev pub texts : ℕ → List (List (List ℕ)) → List (List ℕ)
texts k [] = []
texts k (t ∷ targets) = text k t ∷ texts k targets

-- The trees of the command line's targets: `k + 1` slashes stand between their components.
pub add_targets_lem :
    (m : Matcher) (type : PathType) (k : ℕ) (targets : List (List (List ℕ))) (ns : Names)
    → is_leaf type ≡ true
    → All (IsTarget m) targets
    → IsTree type ns
    → (ns' : Names) × (add_targets m type (texts k targets) ns ≡ some ns')
      × IsTree type ns'
      × ((short : Bool) (path : List (List ℕ))
          → selects short m ns' path ≡ (any_meets short m targets path || selects short m ns path))
      × ((0 < length targets) ⊎ IsSome ns → IsSome ns')
unfolding add_targets add_target
add_targets_lem m type k [] ns leaf good w =
    (ns, refl, w, λ short path. refl, λ h. elim h [ inl p ↦ absurd (omega arith) | inr p ↦ p ])
add_targets_lem m type k (t ∷ targets) ns leaf (good, goods) w =
    let (ns', h, a) =
      add_path_lem m type k (length (text k t) + 1) t ns leaf good
        (omega (arith, length-text m k t good.1)) w in
    let (ns'', h', w', picks, some'') = add_targets_lem m type k targets ns' leaf goods a.tree in
    (
      ns'',
      rw h h',
      w',
      λ short path. picks short path ∙ (rw (a.picks short path) (ground arith)),
      λ p. some'' (inr a.some),
    )
