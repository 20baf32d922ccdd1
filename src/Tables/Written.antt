-- ===== src/Tables/Written.antt =====
-- What generic_write_table of squashfs-tools/mksquashfs.c puts behind an image can be read also where the
-- bytes in front of it change later, as those of the superblock do.
use mathlib.Core.Path.{subst}
use mathlib.Core.List.{append_assoc}
use squashfs_tools.Common.{
  ℕ, ◌+◌, ◌-◌, ◌*◌, ◌/◌, ◌^◌, ◌<◌, ◌≡◌, refl, sym, ap, ◌∙◌, inl, inr, Bool, Option, none, some,
  List, [], ◌++◌, length, get_or, arith, length-append, Option-cases,
}
use squashfs_tools.Format.{metadata_size, table_blocks, table_bytes, inode_size}
use squashfs_tools.Metadata.{Compressor}
use squashfs_tools.Metadata.Blocks.{IsLossless}
use squashfs_tools.Metadata.Fetching.{plain_image}
use squashfs_tools.Metadata.Reader.{Image}
use squashfs_tools.Tables.{longs, generic_write_table}
use squashfs_tools.Tables.Load.{read_index, read_blocks, read_table, parse_exports_table}
use squashfs_tools.Tables.Laws.{IsPlaced, Blocks, write_blocks_lem}
use squashfs_tools.Tables.Roundtrip.{read_table_lem, length-longs, length-placed}

-- The table's bytes, and that it is read behind whatever is as long as the image was.
pub record Written (c : Compressor) (buffer image : List ℕ) (start : ℕ) (whole : List ℕ)
    : Type 0 where
  pub added : List ℕ
  pub whole_is : whole ≡ image ++ added
  pub inside : start < length whole
  pub read :
      (size count : ℕ) (img after : List ℕ)
      → length img ≡ length image
      → length buffer ≡ count * size
      → length whole < 2 ^ 64
      → read_table c (plain_image ((img ++ added) ++ after)) size count start (length whole)
        ≡ some (buffer, length image)

moved :
    (c : Compressor) (rounds : ℕ) (image buffer image' list img : List ℕ)
    (r : Blocks c rounds image buffer image' list)
    → length img ≡ length image
    → Blocks c rounds img buffer (img ++ r.t) list
moved c rounds image buffer image' list img r h = record {
  t = r.t;
  bs = r.bs;
  image_is = refl;
  placed = subst (λ k. IsPlaced c k r.t r.bs list) (sym h) r.placed;
  cut = r.cut;
  count = r.count;
  bytes = r.bytes;
}

-- The bytes, the place and the end of a table, in other words.
same_table :
    (c : Compressor) (size count : ℕ) (bytes bytes' : List ℕ) (start start' last last' : ℕ)
    (r : Option (List ℕ × ℕ))
    → bytes ≡ bytes'
    → start ≡ start'
    → last ≡ last'
    → read_table c (plain_image bytes) size count start last ≡ r
    → read_table c (plain_image bytes') size count start' last' ≡ r
same_table c size count bytes bytes' start start' last last' r p q t h = rw (sym p, sym q, sym t) h

blocks_written :
    (c : Compressor) (rounds : ℕ) (image buffer image' list : List ℕ)
    → Blocks c rounds image buffer image' list
    → rounds ≡ (length buffer + metadata_size - 1) / metadata_size
    → 0 < length buffer
    → Written c buffer image (length image') (image' ++ longs list)
unfolding table_blocks
blocks_written c rounds image buffer image' list r n some_data =
    let long : length image' ≡ length image + length r.t =
      rw r.image_is (length-append image r.t) in
    let whole : length (image' ++ longs list) ≡ length image' + length list * 8 =
      length-append image' (longs list) ∙ ap (λ k. length image' + k) (length-longs list) in
    let some_index : 0 < length list =
      omega (arith, length-placed c (length image) r.t r.bs list r.placed, r.count) in
    record {
      added = r.t ++ longs list;
      whole_is = rw r.image_is (append_assoc image r.t (longs list));
      inside = omega (arith, whole, some_index);
      read = λ size count img after h size_is w.
          let long' : length (img ++ r.t) ≡ length image' =
            omega (arith, length-append {0} img r.t, h, long) in
          let whole' : length ((img ++ r.t) ++ longs list) ≡ length (image' ++ longs list) = omega (
            arith,
            length-append {0} (img ++ r.t) (longs list),
            long',
            length-append {0} image' (longs list),
          ) in
          same_table c size count (((img ++ r.t) ++ longs list) ++ after)
            ((img ++ (r.t ++ longs list)) ++ after) (length (img ++ r.t)) (length image')
            (length ((img ++ r.t) ++ longs list)) (length (image' ++ longs list))
            (some (buffer, length image)) (ap (λ x. x ++ after) (append_assoc img r.t (longs list)))
            long' whole'
            (read_table_lem c rounds size count img buffer (img ++ r.t) list after
                (moved c rounds image buffer image' list img r h) (omega (arith, whole, long', w))
                (omega (arith, n)) (sym size_is) (rw (sym size_is) (sym n))
              ∙ ap (λ k. some (buffer, k)) h);
    }

pub generic_written :
    (c : Compressor) (u : Bool) (buffer image : List ℕ)
    → IsLossless c
    → 0 < length buffer
    → (start : ℕ) × (whole : List ℕ) × (generic_write_table c u buffer [] image
        ≡ some (start, whole))
      × Written c buffer image start whole
unfolding generic_write_table table_blocks
generic_written c u buffer image l some_data =
    let rounds = (length buffer + metadata_size - 1) / metadata_size in
    let (image', list, h, r) = write_blocks_lem c u rounds buffer image l refl in
    let done : generic_write_table c u buffer [] image
        ≡ some (length image', image' ++ longs list) =
      rw h refl in
    (
      length image',
      image' ++ longs list,
      done,
      blocks_written c rounds image buffer image' list r refl some_data,
    )

-- The table of exports is not read: only where its first block is.
pub read_table-parse_exports_table :
    (c : Compressor) (image : Image) (inodes start last first : ℕ) (bytes : List ℕ)
    → read_table c image inode_size inodes start last ≡ some (bytes, first)
    → parse_exports_table image inodes start last ≡ some first
unfolding read_table parse_exports_table
read_table-parse_exports_table c image inodes start last first bytes h =
    elim (Option-cases (read_index image (table_blocks inode_size inodes) start last)) [
      | inl e ↦
          let gone : ◌≡◌ {A = Option (List ℕ × ℕ)} none (some (bytes, first)) =
            sym (rw e refl) ∙ h in
          absurd (cc)
      | inr (index, e) ↦
          elim (Option-cases (
            read_blocks c image (table_bytes inode_size inodes) (table_blocks inode_size inodes) 0
              index)) [
                | inl e' ↦
                    let gone : ◌≡◌ {A = Option (List ℕ × ℕ)} none (some (bytes, first)) =
                      sym (rw (e, e') refl) ∙ h in
                    absurd (cc)
                | inr (b, e') ↦
                    let all : ◌≡◌ {A = Option (List ℕ × ℕ)} (some (b, get_or index 0 0))
                        (some (bytes, first)) =
                      sym (rw (e, e') refl) ∙ h in
                    let same : get_or index 0 0 ≡ first = cc in rw e (ap some same)
              ]
    ]
