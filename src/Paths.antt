-- ===== src/Paths.antt =====
-- The files that unsquashfs is asked to extract or to leave out: get_component, add_path,
-- extract_matches and exclude_matches of squashfs-tools/unsquashfs.c. A string is the list of its
-- characters, up to the NUL; strcmp is compared with 0 only.
pub mod Strings
pub mod Semantics
pub mod Adding
pub mod Entries
pub mod Targets
pub mod Scanning
pub mod Selects
pub mod Chosen
mod Tests
use squashfs_tools.Common.{
  ℕ, zero, suc, ◌+◌, Bool, true, false, ◌&&◌, Option, none, some, List, [], ◌∷◌, ◌++◌, length,
  if◌then◌else◌, ◌==◌, ◌>>=◌,
}

-- PATH_TYPE_EXTRACT, PATH_TYPE_EXCLUDE, PATH_TYPE_LINK.
pub data PathType : Type 0 where
  extract : PathType
  exclude : PathType
  link : PathType

abbrev pub is_type : PathType → PathType → Bool
is_type extract extract = true
is_type exclude exclude = true
is_type link link = true
is_type a b = false

-- struct pathname, which may be NULL, and the array of its struct path_entry: name, type, paths.
mutual
  pub data Names : Type 0 where
    no_names : Names
    entry : List ℕ → PathType → Pathname → Names → Names

  pub data Pathname : Type 0 where
    null : Pathname
    names : Names → Pathname

-- regcomp where use_regex, and how a name is matched: strcmp, regexec or fnmatch, by the options. The
-- last two are functions of the C library.
pub record Matcher : Type 0 where
  pub compiles : List ℕ → Bool
  pub matches : List ℕ → List ℕ → Bool

abbrev pub skip_slashes : List ℕ → List ℕ
skip_slashes [] = []
skip_slashes (c ∷ s) = if c == b'/' then skip_slashes s else c ∷ s

abbrev pub before_slash : List ℕ → List ℕ
before_slash [] = []
before_slash (c ∷ s) = if c == b'/' then [] else c ∷ before_slash s

abbrev pub from_slash : List ℕ → List ℕ
from_slash [] = []
from_slash (c ∷ s) = if c == b'/' then c ∷ s else from_slash s

abbrev pub component_of : List ℕ → Option (List ℕ × List ℕ)
component_of [] = none
component_of (c ∷ s) = some (before_slash (c ∷ s), skip_slashes (from_slash (c ∷ s)))

-- get_component: the component, and the target behind it and its slashes.
unfoldable pub get_component : List ℕ → Option (List ℕ × List ℕ)
get_component target = component_of (skip_slashes target)

-- strcmp with the result 0.
abbrev pub same_name : List ℕ → List ℕ → Bool
same_name [] [] = true
same_name (a ∷ s) (b ∷ t) = a == b && same_name s t
same_name _ _ = false

abbrev pub names_of : Pathname → Names
names_of null = no_names
names_of (names ns) = ns

-- The pointer of an entry stays, whatever add_path returns.
abbrev pub stay : Pathname → Names → Pathname
stay null ns = null
stay (names _) ns = names ns

-- The search of add_path for the component, and what it does with the entry: `again` is the recursive
-- call of add_path for the rest of the target. `none`: the program ends.
unfoldable pub add_name :
    Matcher → PathType → List ℕ → List ℕ → (Names → Option Names) → Names → Option Names
add_name m type targname target again no_names =
    if m.compiles targname
    then elim target [
      | [] ↦ some (entry targname type null no_names)
      | c ∷ s ↦ (do ns ← again no_names; some (entry targname link (names ns) no_names))
    ]
    else none
add_name m type targname target again (entry name t paths ns) = elim (same_name name targname) [
  | false ↦ (do ns' ← add_name m type targname target again ns; some (entry name t paths ns'))
  | true ↦ elim t [
    | link ↦ elim target [
      | [] ↦ some (entry name type null ns)
      | c ∷ s ↦ (do ns' ← again (names_of paths); some (entry name link (stay paths ns') ns))
    ]
    | t' ↦ some (entry name t' paths ns)
  ]
]

-- add_path, of `depth` components at most.
unfoldable pub add_path : Matcher → PathType → ℕ → List ℕ → Names → Option Names
add_path m type zero target ns = none
add_path m type (suc depth) target ns = do
  (targname, target') ← get_component target
  add_name m type targname target' (add_path m type depth target') ns

-- add_extract and add_exclude, for the command line's targets; a component has a character.
unfoldable pub add_target : Matcher → PathType → List ℕ → Names → Option Names
add_target m type target ns = add_path m type (length target + 1) target ns

unfoldable pub add_targets : Matcher → PathType → List (List ℕ) → Names → Option Names
add_targets m type [] ns = some ns
add_targets m type (target ∷ targets) ns = do
  ns' ← add_target m type target ns
  add_targets m type targets ns'

-- The inner loop of extract_matches and exclude_matches; `none` is empty_set.
unfoldable pub scan_names : Matcher → PathType → List ℕ → Names → List Names → Option (List Names)
scan_names m type name no_names new = some new
scan_names m type name (entry n t paths ns) new = elim (m.matches n name) [
  | false ↦ scan_names m type name ns new
  | true ↦ elim (is_type t type) [
    | true ↦ none
    | false ↦ scan_names m type name ns (new ++ (names_of paths ∷ []))
  ]
]

-- The outer loop.
unfoldable pub scan_paths :
    Matcher → PathType → List ℕ → List Names → List Names → Option (List Names)
scan_paths m type name [] new = some new
scan_paths m type name (path ∷ paths) new = do
  new' ← scan_names m type name path new
  scan_paths m type name paths new'

-- extract_matches and exclude_matches: the result and *new; `none` is NULL.
abbrev extract_result : Option (List Names) → Bool × Option (List Names)
extract_result none = (true, none)
extract_result (some []) = (false, none)
extract_result (some (p ∷ ps)) = (true, some (p ∷ ps))

unfoldable pub extract_matches : Matcher → Option (List Names) → List ℕ → Bool × Option (List Names)
extract_matches m none name = (true, none)
extract_matches m (some paths) name = extract_result (scan_paths m extract name paths [])

abbrev exclude_result : Option (List Names) → Bool × Option (List Names)
exclude_result none = (true, none)
exclude_result (some []) = (false, none)
exclude_result (some (p ∷ ps)) = (false, some (p ∷ ps))

unfoldable pub exclude_matches : Matcher → Option (List Names) → List ℕ → Bool × Option (List Names)
exclude_matches m none name = (false, none)
exclude_matches m (some paths) name = exclude_result (scan_paths m exclude name paths [])

-- The tests of pre_scan and dir_scan along a path: `none` where a name is passed over, else `newt`.
unfoldable pub scan_to :
    Matcher
    → Option (List Names)
    → Option (List Names)
    → List (List ℕ)
    → Option (Option (List Names))
scan_to m extracts excludes [] = some extracts
scan_to m extracts excludes (name ∷ path) =
    let (wanted, newt) = extract_matches m extracts name in
    let (excluded, newc) = exclude_matches m excludes name in
    let rest = scan_to m newt newc path in
    if wanted then (if excluded then none else rest) else none
