-- ===== src/Paths/Tests.antt =====
-- Two targets, and a path below one of them.
use squashfs_tools.Common.{ℕ, ◌≡◌, ◌&&◌, refl, true, false, not, some, List, [], ◌∷◌, arith, All}
use squashfs_tools.Paths.{
  Names, no_names, entry, null, names, extract, exclude, link, Matcher, same_name, get_component,
  add_path, add_name, add_target, add_targets, scan_to,
}
use squashfs_tools.Paths.Semantics.{any_meets}
use squashfs_tools.Paths.Targets.{IsTarget, texts}
use squashfs_tools.Paths.Chosen.{is_scanned, is_taken, search_set, chosen, add_targets-scan_to}

abbrev by_strcmp : Matcher
by_strcmp = record { compiles = λ pattern. true; matches = same_name }

abbrev a_b : List (List ℕ)
a_b = (b'a' ∷ []) ∷ (b'b' ∷ []) ∷ []

abbrev a_c : List (List ℕ)
a_c = (b'a' ∷ []) ∷ (b'c' ∷ b'd' ∷ []) ∷ []

slashes :
    get_component (b'/' ∷ b'/' ∷ b'a' ∷ b'b' ∷ b'/' ∷ b'/' ∷ b'c' ∷ [])
    ≡ some (b'a' ∷ b'b' ∷ [], b'c' ∷ [])
unfolding get_component
slashes = refl

tree :
    add_targets by_strcmp extract (texts 0 (a_b ∷ a_c ∷ [])) no_names
    ≡ some (
        entry
          (b'a' ∷ [])
          link
          (names (entry (b'b' ∷ []) extract null (entry (b'c' ∷ b'd' ∷ []) extract null no_names)))
          no_names)
unfolding add_targets add_target add_path add_name get_component
tree = refl

all_below :
    add_targets by_strcmp extract (texts 0 (a_b ∷ a_c ∷ ((b'a' ∷ []) ∷ []) ∷ [])) no_names
    ≡ some (entry (b'a' ∷ []) extract null no_names)
unfolding add_targets add_target add_path add_name get_component
all_below = refl

abbrev kept : List (List (List ℕ))
kept = a_b ∷ a_c ∷ []

abbrev left_out : List (List (List ℕ))
left_out = a_c ∷ []

kept-IsTarget : All (IsTarget by_strcmp) kept
kept-IsTarget = ground arith

left_out-IsTarget : All (IsTarget by_strcmp) left_out
left_out-IsTarget = ground arith

add_targets-scan_to_example :
    (ns ns' : Names) × (add_targets by_strcmp extract (texts 1 kept) no_names ≡ some ns)
    × (add_targets by_strcmp exclude (texts 1 left_out) no_names ≡ some ns')
    × (is_scanned (scan_to by_strcmp (search_set ns) (search_set ns') a_b)
        ≡ (chosen true by_strcmp kept a_b && not (any_meets false by_strcmp left_out a_b)))
    × (is_taken (scan_to by_strcmp (search_set ns) (search_set ns') a_b)
        ≡ (chosen false by_strcmp kept a_b && not (any_meets false by_strcmp left_out a_b)))
add_targets-scan_to_example =
    add_targets-scan_to by_strcmp 1 kept left_out a_b kept-IsTarget left_out-IsTarget
