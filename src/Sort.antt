-- ===== src/Sort.antt =====
-- The order of the files in an image: the priority lists of squashfs-tools/sort.c. A linked list is a
-- list, the head first, and a table of lists a function.
pub mod Priority
pub mod Order
mod Tests
use squashfs_tools.Common.{
  ℕ, zero, suc, ◌+◌, ◌-◌, Bool, true, false, ◌&&◌, List, [], ◌∷◌, ◌++◌, if◌then◌else◌, ◌==◌, update,
}
use squashfs_tools.Common.Int.{ℤ, pos, negsuc}
use squashfs_tools.Hash.{calculate_hash}

-- `priority += 32768`, for a priority from -32768 on; below, the source would leave its array, and a sort file
-- with such a priority is refused.
abbrev pub slot : ℤ → ℕ
slot (pos n) = n + 32768
slot (negsuc n) = 32768 - suc n

module _ {ℓ} {A : Type ℓ} where
  -- add_priority_list.
  unfoldable pub add_priority_list : (ℕ → List A) → A → ℤ → ℕ → List A
  add_priority_list lists dir priority = update lists (slot priority) (dir ∷ lists (slot priority))

  -- The two loops of sort_files_and_write, from the list below `n`: the entries in the order in which they
  -- are written.
  unfoldable pub write_order : ℕ → (ℕ → List A) → List A
  write_order zero lists = []
  write_order (suc i) lists = lists i ++ write_order i lists

  -- sort_files_and_write.
  abbrev pub sort_files_and_write : (ℕ → List A) → List A
  sort_files_and_write lists = write_order 65536 lists

-- struct sort_info.
pub record SortInfo : Type 0 where
  pub st_dev : ℕ
  pub st_ino : ℕ
  pub priority : ℤ

-- ADD_ENTRY.
unfoldable pub add_entry : (ℕ → List SortInfo) → ℕ → ℕ → ℤ → ℕ → List SortInfo
add_entry sort_info_list dev ino priority =
    let hash = calculate_hash ino in
    update sort_info_list hash
      (record { st_dev = dev; st_ino = ino; priority = priority } ∷ sort_info_list hash)

-- The loop of get_priority.
unfoldable pub find_priority : List SortInfo → ℕ → ℕ → ℤ → ℤ
find_priority [] dev ino priority = priority
find_priority (s ∷ list) dev ino priority =
    if s.st_dev == dev && s.st_ino == ino then s.priority else find_priority list dev ino priority

-- get_priority.
abbrev pub get_priority : (ℕ → List SortInfo) → ℕ → ℕ → ℤ → ℤ
get_priority sort_info_list dev ino priority =
    find_priority (sort_info_list (calculate_hash ino)) dev ino priority
