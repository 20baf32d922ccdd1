-- ===== src/Directory/Sort.antt =====
-- sort_directory of squashfs-tools/unsquash-12.c: a bottom-up merge sort of the entries of a directory.
-- The linked list is a list, and the two sublists at l1 and l2 are two lists: an entry is linked to the
-- output only when its own next pointer has been read.
pub mod Merge
pub mod Pass
use Prim.Native.Nat.{Ordering}
use squashfs_tools.Common.{
  ℕ, zero, suc, ◌*◌, ◌++◌, List, [], ◌∷◌, drop, take, length, ltb, if◌then◌else◌, Option, none,
  some, ◌>>=◌,
}
use squashfs_tools.Directory.{strcmp}

-- struct dir_ent.
pub record DirEnt : Type 0 where
  pub name : List ℕ
  pub start_block : ℕ
  pub offset : ℕ
  pub kind : ℕ

-- The merge of the sublist at l1, which holds len1 entries, with the first len2 at l2: what goes to
-- the output list, and where l2 is left.
unfoldable pub merge : List DirEnt → List DirEnt → ℕ → List DirEnt × List DirEnt
merge [] l2 len2 = (take len2 l2, drop len2 l2)
merge (x ∷ l1) [] len2 = (x ∷ l1, [])
merge (x ∷ l1) (y ∷ l2) zero = (x ∷ l1, y ∷ l2)
merge (x ∷ l1) (y ∷ l2) (suc len2) = elim (strcmp x.name y.name) [
  | Ordering.gt ↦ let (out, rest) = merge (x ∷ l1) l2 len2 in (y ∷ out, rest)
  | _ ↦ let (out, rest) = merge l1 (y ∷ l2) (suc len2) in (x ∷ out, rest)
]

-- `while(l2)`, of `fuel` rounds at most; none where these are not enough.
unfoldable pub merge_pass : ℕ → ℕ → List DirEnt → Option (List DirEnt)
merge_pass fuel stride [] = some []
merge_pass zero stride (x ∷ l) = none
merge_pass (suc fuel) stride (x ∷ l) =
    let (out, rest) = merge (take stride (x ∷ l)) (drop stride (x ∷ l)) stride in
    do l' ← merge_pass fuel stride rest; some (out ++ l')

-- `do ... while(stride < dir->dir_count)`, of `fuel` rounds at most; none where these are not enough. A pass
-- over a list is given a round for each entry.
unfoldable pub merge_loop : ℕ → ℕ → ℕ → List DirEnt → Option (List DirEnt)
merge_loop zero dir_count stride l = none
merge_loop (suc fuel) dir_count stride l = do
  l' ← merge_pass (length l) stride l
  let rest = merge_loop fuel dir_count (stride * 2) l' in
      if ltb (stride * 2) dir_count then rest else some l'

-- sort_directory; dir_count is the number of the entries.
unfoldable pub sort_directory : List DirEnt → Option (List DirEnt)
sort_directory dirs =
    if ltb (length dirs) 2 then some dirs else merge_loop (length dirs) (length dirs) 1 dirs
