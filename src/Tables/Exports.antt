-- ===== src/Tables/Exports.antt =====
-- The table of exports that write_inode_lookup_table of squashfs-tools/mksquashfs.c puts down, and what
-- read_filesystem_tables of unsquash-4.c does at it.
use mathlib.Core.List.{append-nil}
use squashfs_tools.Common.{
  ℕ, ◌-◌, ◌*◌, ◌%◌, ◌^◌, ◌<◌, ◌≡◌, refl, ap, sym, ◌∙◌, inl, inr, Bool, true, Option, some, List, [],
  ◌∷◌, ◌++◌, length, ltb, take, take-length, set, ◌==◌, if◌then◌else◌, arith, Bool-cases,
  length-set,
}
use squashfs_tools.Metadata.{Compressor}
use squashfs_tools.Metadata.Blocks.{IsLossless}
use squashfs_tools.Metadata.Fetching.{plain_image}
use squashfs_tools.Format.{inode_size}
use squashfs_tools.Tables.{longs, generic_write_table}
use squashfs_tools.Tables.Roundtrip.{length-longs}
use squashfs_tools.Tables.Written.{generic_written, read_table-parse_exports_table}
use squashfs_tools.Tables.Super.{Superblock, invalid_blk}
use squashfs_tools.Tables.Filesystem.{
  InodeInfo, Tables, set_inodes, write_inode_lookup_table, pass_exports,
}
use squashfs_tools.Tables.Parts.{pass_exports_lem}

-- The table of exports, where the image has one.
abbrev pub ExportsRead : List ℕ → List ℕ → ℕ → ℕ → List ℕ → Type 0
ExportsRead image added inodes start whole =
    (s : Superblock) (img after : List ℕ)
    → length img ≡ length image
    → length whole < 2 ^ 63
    → s.inodes ≡ inodes
    → s.lookup_table_start ≡ start
    → (pass_exports (plain_image ((img ++ added) ++ after)) s (length whole) ≡ some (length image))
      × (start < 2 ^ 64)

length-set_inodes :
    (infos : List InodeInfo) (table : List ℕ) → length (set_inodes infos table) ≡ length table
unfolding set_inodes
length-set_inodes [] table = refl
length-set_inodes (i ∷ infos) table = elim (Bool-cases (i.inode_number == 0)) [
  | inl e ↦ rw e (length-set_inodes infos table)
  | inr e ↦ rw e (
      length-set_inodes infos (set table (i.inode_number - 1) i.inode)
      ∙ length-set table (i.inode_number - 1) i.inode)
]

-- The entries that are written.
abbrev exports_of : Tables → List ℕ
exports_of t =
    if length t.inode_lookup_table == t.sinode_count
    then t.inode_lookup_table
    else set_inodes t.inode_info t.inode_lookup_table

length-exports_of : (t : Tables) → length (exports_of t) ≡ length t.inode_lookup_table
length-exports_of t = elim (Bool-cases (length t.inode_lookup_table == t.sinode_count)) [
  | inl e ↦ rw e refl
  | inr e ↦ rw e (length-set_inodes t.inode_info t.inode_lookup_table)
]

lookups_written :
    (c : Compressor) (u : Bool) (table image : List ℕ)
    → IsLossless c
    → 0 < length table
    → (start : ℕ) × (whole added : List ℕ) × (generic_write_table c u (longs table) [] image
        ≡ some (start, whole))
      × (whole ≡ image ++ added)
      × ExportsRead image added (length table) start whole
lookups_written c u table image l some_inode =
    let (start, whole, h, w) =
      generic_written c u (longs table) image l (omega (arith, length-longs table)) in
    (
      start,
      whole,
      w.added,
      h,
      w.whole_is,
      λ s img after same small n start_is.
          let table' =
            w.read inode_size (length table) img after same (length-longs table)
              (omega (arith, small)) in
          let read =
            read_table-parse_exports_table c (plain_image ((img ++ w.added) ++ after))
              (length table) start (length whole) (length image) (longs table) table' in
          (
            pass_exports_lem (plain_image ((img ++ w.added) ++ after)) s (length whole)
                (length image) (omega (arith, start_is, w.inside)) small (rw (n, start_is) read),
            omega (arith, w.inside, small),
          ),
    )

abbrev pub put_lookups : Compressor → Tables → List ℕ → Option (ℕ × List ℕ)
put_lookups c t image =
    if t.exportable then write_inode_lookup_table c t image else some (invalid_blk, image)

-- Below 2 ^ 28 inodes lookup_bytes is the size of the table.
lookup_bytes_lem :
    (t : Tables)
    → length t.inode_lookup_table < 2 ^ 28
    → length t.inode_lookup_table * inode_size % 2 ^ 32 ≡ length (longs (exports_of t))
lookup_bytes_lem t h = omega (arith, length-longs (exports_of t), length-exports_of t)

put_exports :
    (c : Compressor) (t : Tables) (image : List ℕ) (start : ℕ) (whole : List ℕ)
    → t.exportable ≡ true
    → length t.inode_lookup_table < 2 ^ 28
    → generic_write_table c t.no_i (longs (exports_of t)) [] image ≡ some (start, whole)
    → put_lookups c t image ≡ some (start, whole)
unfolding write_inode_lookup_table
put_exports c t image start whole e few h =
    let size = lookup_bytes_lem t few in
    let fits : ltb (length t.inode_lookup_table * inode_size % 2 ^ 32) (2 ^ 31) ≡ true =
      ground (arith, few) in
    let all : take (length t.inode_lookup_table * inode_size % 2 ^ 32) (longs (exports_of t))
        ≡ longs (exports_of t) =
      ap (λ n. take n (longs (exports_of t))) size ∙ take-length (longs (exports_of t)) in
    rw (e, fits, all) h

pub exports_written :
    (c : Compressor) (t : Tables) (image : List ℕ)
    → IsLossless c
    → 0 < length t.inode_lookup_table
    → (t.exportable ≡ true → length t.inode_lookup_table < 2 ^ 28)
    → (start : ℕ) × (whole added : List ℕ) × (put_lookups c t image ≡ some (start, whole))
      × (whole ≡ image ++ added)
      × ExportsRead image added (length t.inode_lookup_table) start whole
unfolding write_inode_lookup_table
exports_written c t image l some_inode few = elim (Bool-cases t.exportable) [
  | inr e ↦ (
    invalid_blk,
    image,
    [],
    rw e refl,
    sym (append-nil image),
    λ s img after same small n start_is. (rw start_is refl, omega arith),
  )
  | inl e ↦
      let n = length-exports_of t in
      let (start, whole, added, h, w, r) =
        lookups_written c t.no_i (exports_of t) image l (omega (arith, n)) in
      (
        start,
        whole,
        added,
        put_exports c t image start whole e (few e) h,
        w,
        λ s img after same small m start_is. r s img after same small (m ∙ sym n) start_is,
      )
]
