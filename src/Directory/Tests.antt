-- ===== src/Directory/Tests.antt =====
-- Directories of a few entries.
use mathlib.Core.List.{Perm}
use squashfs_tools.Common.{◌≡◌, ◌↔◌, refl, ℕ, true, false, some, List, [], ◌∷◌}
use squashfs_tools.Directory.{check_name, check_directory, scan, ascending, strcmp}
use squashfs_tools.Directory.Names.{c_string, IsName, check_name_iff}
use squashfs_tools.Directory.Order.{IsAscending, check_directory_iff}
use squashfs_tools.Directory.Sort.{DirEnt, sort_directory, merge_loop, merge_pass, merge}
use squashfs_tools.Directory.Sort.Merge.{IsSorted}
use squashfs_tools.Directory.Sort.Pass.{sort_directory_lem}

-- "..a", with its NUL.
abbrev dotted : List ℕ
dotted = b'.' ∷ b'.' ∷ b'a' ∷ 0 ∷ []

accepts_dotted : check_name dotted 3 ≡ true
unfolding check_name scan
accepts_dotted = refl

refuses_dots : check_name (b'.' ∷ b'.' ∷ 0 ∷ []) 2 ≡ false
unfolding check_name
refuses_dots = refl

check_name_iff_example : (check_name dotted 3 ≡ true) ↔ IsName (c_string dotted) 3
check_name_iff_example = check_name_iff dotted 3

abbrev names : List (List ℕ)
names = (b'a' ∷ []) ∷ (b'a' ∷ b'b' ∷ []) ∷ (b'c' ∷ []) ∷ []

accepts_names : check_directory names ≡ true
unfolding check_directory ascending strcmp
accepts_names = refl

check_directory_iff_example : (check_directory names ≡ true) ↔ IsAscending names
check_directory_iff_example = check_directory_iff names

abbrev entry : ℕ → DirEnt
entry c = record { name = c ∷ []; start_block = 0; offset = c; kind = 2 }

abbrev entries : List DirEnt
entries = entry b'c' ∷ entry b'a' ∷ entry b'd' ∷ entry b'b' ∷ entry b'a' ∷ []

sorts_entries :
    sort_directory entries
    ≡ some (entry b'a' ∷ entry b'a' ∷ entry b'b' ∷ entry b'c' ∷ entry b'd' ∷ [])
unfolding sort_directory merge_loop merge_pass merge strcmp
sorts_entries = refl

sort_directory_lem_example :
    (l : List DirEnt) × (sort_directory entries ≡ some l) × IsSorted l × Perm entries l
sort_directory_lem_example = sort_directory_lem entries
