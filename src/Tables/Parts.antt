-- ===== src/Tables/Parts.antt =====
-- The tables that write_filesystem_tables of squashfs-tools/mksquashfs.c puts down, one by one, and what
-- read_filesystem_tables of unsquash-4.c does at each.
use mathlib.Core.List.{append-nil}
use squashfs_tools.Common.{
  ℕ, ◌+◌, ◌*◌, ◌%◌, ◌^◌, ◌≤◌, ◌<◌, ◌≡◌, refl, ap, Bool, true, false, some, List, [], ◌∷◌, ◌++◌,
  length, ◌==◌, ltb, arith, All,
}
use squashfs_tools.Metadata.{Compressor}
use squashfs_tools.Metadata.Blocks.{IsLossless}
use squashfs_tools.Metadata.Fetching.{plain_image}
use squashfs_tools.Metadata.Reader.{Image}
use squashfs_tools.Format.{id_size, fragment_entry_size}
use squashfs_tools.Format.Fields.{ints}
use squashfs_tools.Tables.{
  generic_write_table, write_blocks, write_id_table, write_fragment_table, Fragment, fragment_bytes,
}
use squashfs_tools.Tables.Load.{read_id_table, read_fragment_table, parse_exports_table}
use squashfs_tools.Tables.Roundtrip.{
  IsFragment, length-ints, ints_of-ints, length-fragment_bytes, fragments_of-fragment_bytes,
}
use squashfs_tools.Tables.Written.{generic_written}
use squashfs_tools.Tables.Super.{Superblock, invalid_blk}
use squashfs_tools.Tables.Filesystem.{less, pass_ids, pass_exports, pass_fragments}

pub less_lem : (a b : ℕ) → a < b → b < 2 ^ 63 → less a b ≡ true
less_lem a b h k =
    let a' : (a + 2 ^ 63) % 2 ^ 64 ≡ a + 2 ^ 63 = omega arith in
    let b' : (b + 2 ^ 63) % 2 ^ 64 ≡ b + 2 ^ 63 = omega arith in rw (a', b') (ground arith)

pub less-false : (a b : ℕ) → b ≤ a → a < 2 ^ 63 → less a b ≡ false
less-false a b h k =
    let a' : (a + 2 ^ 63) % 2 ^ 64 ≡ a + 2 ^ 63 = omega arith in
    let b' : (b + 2 ^ 63) % 2 ^ 64 ≡ b + 2 ^ 63 = omega arith in rw (a', b') (ground arith)

-- A table of ids is read where it was put, as long as the superblock's numbers are right.
abbrev pub IdsRead : Compressor → List ℕ → List ℕ → List ℕ → ℕ → List ℕ → Type 0
IdsRead c ids image added start whole =
    (s : Superblock) (img after : List ℕ)
    → length img ≡ length image
    → length whole < 2 ^ 63
    → s.no_ids ≡ length ids
    → length ids ≤ s.inodes * 2
    → s.id_table_start ≡ start
    → (pass_ids c (plain_image ((img ++ added) ++ after)) s (length whole)
        ≡ some (ids, length image))
      × (start < 2 ^ 64)

pass_ids_lem :
    (c : Compressor) (image : Image) (s : Superblock) (ids : List ℕ) (last first : ℕ)
    → 0 < length ids
    → length ids ≤ s.inodes * 2
    → s.no_ids ≡ length ids
    → s.id_table_start < last
    → last < 2 ^ 63
    → read_id_table c image (length ids) s.id_table_start last ≡ some (ids, first)
    → pass_ids c image s last ≡ some (ids, first)
pass_ids_lem c image s ids last first some_id few n inside small h =
    let a : (length ids == 0) ≡ false = ground arith in
    let b : ltb (s.inodes * 2) (length ids) ≡ false = ground arith in
    rw (less_lem s.id_table_start last inside small, n, a, b) h

pass_fragments_lem :
    (c : Compressor) (image : Image) (s : Superblock) (fs : List Fragment) (last first : ℕ)
    → 0 < length fs
    → length fs ≤ s.inodes
    → s.fragments ≡ length fs
    → s.fragment_table_start < last
    → last < 2 ^ 63
    → read_fragment_table c image (length fs) s.fragment_table_start last ≡ some (fs, first)
    → pass_fragments c image s last ≡ some (fs, first)
pass_fragments_lem c image s fs last first some_fragment few n inside small h =
    let a : (length fs == 0) ≡ false = ground arith in
    let b : ltb s.inodes (length fs) ≡ false = ground arith in
    rw (less_lem s.fragment_table_start last inside small, n, a, b) h

pub pass_exports_lem :
    (image : Image) (s : Superblock) (last first : ℕ)
    → s.lookup_table_start < last
    → last < 2 ^ 63
    → parse_exports_table image s.inodes s.lookup_table_start last ≡ some first
    → pass_exports image s last ≡ some first
pass_exports_lem image s last first inside small h =
    let a : (s.lookup_table_start == invalid_blk) ≡ false = ground arith in
    rw (a, less_lem s.lookup_table_start last inside small) h

pub ids_written :
    (c : Compressor) (u : Bool) (ids image : List ℕ)
    → IsLossless c
    → 0 < length ids
    → All (λ id. id < 2 ^ 32) ids
    → (start : ℕ) × (whole added : List ℕ) × (write_id_table c u ids image ≡ some (start, whole))
      × (whole ≡ image ++ added)
      × IdsRead c ids image added start whole
unfolding write_id_table read_id_table
ids_written c u ids image l some_id fit =
    let (start, whole, h, w) =
      generic_written c u (ints ids) image l (omega (arith, length-ints ids)) in
    (
      start,
      whole,
      w.added,
      h,
      w.whole_is,
      λ s img after same small n few start_is.
          let table =
            w.read id_size (length ids) img after same (length-ints ids) (omega (arith, small)) in
          let read : read_id_table c (plain_image ((img ++ w.added) ++ after)) (length ids) start
                (length whole)
              ≡ some (ids, length image) =
            rw (table, ints_of-ints ids fit) refl in
          (
            pass_ids_lem c (plain_image ((img ++ w.added) ++ after)) s ids (length whole)
                (length image) some_id few n (omega (arith, start_is, w.inside)) small
                (rw start_is read),
            omega (arith, w.inside, small),
          ),
    )

-- The same of the fragments, where there may be none.
abbrev pub FragmentsRead : Compressor → List Fragment → List ℕ → List ℕ → ℕ → List ℕ → Type 0
FragmentsRead c fs image added start whole =
    (s : Superblock) (img after : List ℕ)
    → length img ≡ length image
    → length whole < 2 ^ 63
    → s.fragments ≡ length fs
    → length fs ≤ s.inodes
    → s.fragment_table_start ≡ start
    → (pass_fragments c (plain_image ((img ++ added) ++ after)) s (length whole)
        ≡ some (fs, length image))
      × (start < 2 ^ 64)

write_no_fragments :
    (c : Compressor) (u : Bool) (image : List ℕ)
    → write_fragment_table c u [] image ≡ some (length image, image ++ [])
unfolding write_fragment_table generic_write_table write_blocks
write_no_fragments c u image = refl

pub fragments_written :
    (c : Compressor) (u : Bool) (fs : List Fragment) (image : List ℕ)
    → IsLossless c
    → All IsFragment fs
    → (start : ℕ) × (whole added : List ℕ) × (write_fragment_table c u fs image
        ≡ some (start, whole))
      × (whole ≡ image ++ added)
      × FragmentsRead c fs image added start whole
unfolding write_fragment_table read_fragment_table
fragments_written c u [] image l fit = (
  length image,
  image ++ [],
  [],
  write_no_fragments c u image,
  refl,
  λ s img after same small n few start_is.
      (rw (n, append-nil image) refl, omega (arith, small, ap length (append-nil image))),
)
fragments_written c u (f ∷ fs) image l fit =
    let (start, whole, h, w) =
      generic_written c u (fragment_bytes (f ∷ fs)) image l
        (omega (arith, length-fragment_bytes (f ∷ fs))) in
    (
      start,
      whole,
      w.added,
      h,
      w.whole_is,
      λ s img after same small n few start_is.
          let table =
            w.read fragment_entry_size (length (f ∷ fs)) img after same
              (length-fragment_bytes (f ∷ fs)) (omega (arith, small)) in
          let read : read_fragment_table c (plain_image ((img ++ w.added) ++ after))
                (length (f ∷ fs)) start (length whole)
              ≡ some (f ∷ fs, length image) =
            rw (table, fragments_of-fragment_bytes (f ∷ fs) fit) refl in
          (
            pass_fragments_lem c (plain_image ((img ++ w.added) ++ after)) s (f ∷ fs) (length whole)
                (length image) (omega arith) few n (omega (arith, start_is, w.inside)) small
                (rw start_is read),
            omega (arith, w.inside, small),
          ),
    )
