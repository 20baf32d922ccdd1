-- ===== src/Sort/Priority.antt =====
-- The priority of a file, by the sort files.
use mathlib.Core.Path.{subst}
use native.Mathlib.Decide.{ℕ_discrete}
use squashfs_tools.Common.{
  ℕ, ◌≡◌, ◌≢◌, inl, inr, ap, false, ◌&&◌, List, ◌∷◌, arith, update, update_self, update_ne, ◌==◌,
  Bool-cases, if◌then◌else◌,
}
use squashfs_tools.Common.Int.{ℤ}
use squashfs_tools.Hash.{calculate_hash}
use squashfs_tools.Sort.{SortInfo, add_entry, find_priority, get_priority}

-- After ADD_ENTRY, get_priority gives the new priority for the inode that was added, by its
-- device and number, and for any other what it gave before, also where they share a list of the
-- hash table.
pub get_priority-add_entry :
    (table : ℕ → List SortInfo) (dev ino dev' ino' : ℕ) (p default : ℤ)
    → get_priority (add_entry table dev ino p) dev' ino' default
      ≡ (if dev == dev' && ino == ino' then p else get_priority table dev' ino' default)
unfolding add_entry find_priority
get_priority-add_entry table dev ino dev' ino' p default =
    elim (ℕ_discrete (calculate_hash ino) (calculate_hash ino')) [
      | yes same ↦
          ap (λ l. find_priority l dev' ino' default)
            (subst
              (λ h.
                update table (calculate_hash ino) (entry ∷ table (calculate_hash ino)) h
                ≡ entry ∷ table h)
              same (update_self table (calculate_hash ino) (entry ∷ table (calculate_hash ino))))
      | no other ↦ rw (different other) (
          ap (λ l. find_priority l dev' ino' default)
            (update_ne table (calculate_hash ino) (entry ∷ table (calculate_hash ino))
              (calculate_hash ino') other))
    ]
  where
    entry : SortInfo
    entry = record { st_dev = dev; st_ino = ino; priority = p }

    different : calculate_hash ino ≢ calculate_hash ino' → (dev == dev' && ino == ino') ≡ false
    different other = elim (Bool-cases (dev == dev' && ino == ino')) [
      | inr f ↦ f
      | inl t ↦ let e : ino ≡ ino' = ground arith in absurd (other (ap calculate_hash e))
    ]
