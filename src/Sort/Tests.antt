-- ===== src/Sort/Tests.antt =====
-- Two files, the second of a higher priority.
use mathlib.Core.List.{Perm}
use squashfs_tools.Common.{ℕ, ◌≡◌, ◌==◌, ◌&&◌, List, [], ◌∷◌, arith, if◌then◌else◌}
use squashfs_tools.Common.Int.{ℤ, pos, negsuc}
use squashfs_tools.Sort.{sort_files_and_write, add_entry, get_priority}
use squashfs_tools.Sort.Priority.{get_priority-add_entry}
use squashfs_tools.Sort.Order.{add_all, IsDescending, sort_files_and_write_lem}

abbrev files : List ℕ
files = 1 ∷ 2 ∷ []

abbrev priority : ℕ → ℤ
priority n = if n == 2 then pos 5 else negsuc 5

sort_files_and_write_lem_example :
    IsDescending priority (sort_files_and_write (add_all priority files))
    × Perm files (sort_files_and_write (add_all priority files))
sort_files_and_write_lem_example =
    sort_files_and_write_lem priority files ((omega arith, tt), ((tt, omega arith), tt))

-- The inodes 1 and 65537 share a list.
get_priority-add_entry_example :
    get_priority (add_entry (λ h. []) 8 1 (pos 5)) 8 65537 (pos 0)
    ≡ (if 8 == 8 && 1 == 65537 then pos 5 else get_priority (λ h. []) 8 65537 (pos 0))
get_priority-add_entry_example = get_priority-add_entry (λ h. []) 8 1 8 65537 (pos 5) (pos 0)
