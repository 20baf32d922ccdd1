-- ===== src/Tables/Ready.antt =====
-- What the superblock of an image needs, as write_filesystem_tables of squashfs-tools/mksquashfs.c puts
-- it in front, and that read_super_4 of unsquash-4.c takes it.
use mathlib.Core.List.{append_assoc}
use squashfs_tools.Common.{
  ℕ, zero, suc, ◌+◌, ◌*◌, ◌^◌, ◌≤◌, ◌<◌, ◌≡◌, refl, sym, ap, ◌∙◌, Bool, true, Option, some, List,
  [], ◌∷◌, ◌++◌, length, drop, flat, arith, All, length-append, length-drop, if◌then◌else◌,
}
use squashfs_tools.Metadata.{Compressor, Writer, write_table}
use squashfs_tools.Metadata.Blocks.{IsLossless}
use squashfs_tools.Metadata.Filling.{IsPacked}
use squashfs_tools.Metadata.Flushing.{write_table_lem}
use squashfs_tools.Metadata.Fetching.{plain_image, read_fs_bytes-append}
use squashfs_tools.Metadata.Reader.{read_fs_bytes}
use squashfs_tools.Tables.Ids.{ids_of}
use squashfs_tools.Tables.Roundtrip.{IsFragment}
use squashfs_tools.Tables.Super.{
  Superblock, super_size, squashfs_magic, invalid_blk, super_bytes, version_4, read_super_4,
  IsSuper, super_of-super_bytes, length-super_bytes, is_version_4, other_version,
}
use squashfs_tools.Tables.Filesystem.{Tables}

-- write_xattrs where there are no attributes.
abbrev pub no_xattrs : List ℕ → Option (ℕ × List ℕ)
no_xattrs image = some (invalid_blk, image)

-- The tables and the superblock fit the format: the numbers fit their fields, the cache of inodes is not
-- empty, there is an owner, and there are no more owners than two for each inode, nor fragments than
-- inodes. A table of exports is for less than 2 ^ 28 inodes, as its size is an int.
pub record IsReady (compression : ℕ) (t : Tables) (s : Superblock) : Type 0 where
  pub s_magic : s.s_magic ≡ squashfs_magic
  pub s_major : s.s_major ≡ 4
  pub s_minor : s.s_minor ≡ 0
  pub inodes : s.inodes < 2 ^ 32
  pub mkfs_time : s.mkfs_time < 2 ^ 32
  pub block_size : s.block_size < 2 ^ 32
  pub comp_id : compression < 2 ^ 16
  pub block_log : s.block_log < 2 ^ 16
  pub flags : s.flags < 2 ^ 16
  pub root_inode : s.root_inode < 2 ^ 64
  pub some_inode : 0 < length t.inodes.cache
  pub inode_count : length t.inode_lookup_table ≡ s.inodes
  pub few_exports : t.exportable ≡ true → s.inodes < 2 ^ 28
  pub fragments : All IsFragment t.fragments
  pub few_fragments : length t.fragments ≤ s.inodes
  pub ids : All (λ id. id < 2 ^ 32) (ids_of t.ids.id_table)
  pub some_id : 0 < length t.ids.id_table
  pub short_ids : length t.ids.id_table < 2 ^ 16
  pub few_ids : length t.ids.id_table ≤ s.inodes * 2

packed_some :
    (c : Compressor) (bytes : List ℕ) (blocks : List (List ℕ))
    → IsPacked c bytes blocks
    → 0 < length (flat blocks)
    → 0 < length bytes
packed_some c bytes [] h n = absurd (omega arith)
packed_some c bytes (b ∷ bs) (e, t', p, q, h) n =
    let long : length bytes ≡ length e + length t' = rw p (length-append e t') in
    let some_bytes : 0 < length e = rw q.bytes (omega arith) in omega arith

-- The table of inodes has a byte, as there is an inode in the cache.
pub table_some :
    (c : Compressor) (noi : Bool) (w : Writer)
    → IsLossless c
    → 0 < length w.cache
    → (table : List ℕ) × (write_table c noi w ≡ some table) × (0 < length table)
table_some c noi w l n =
    let (w', h, f) = write_table_lem c noi w l in
    (
      w'.table,
      h,
      omega (
        arith,
        ap length f.table,
        length-append {0} w.table f.bytes,
        packed_some c f.bytes f.blocks f.packed (omega (arith, ap length f.kept)),
      ),
    )

-- The superblock that is written, and the image that it stands in front of.
abbrev pub with_super : Superblock → List ℕ → List ℕ
with_super s image = super_bytes s ++ drop super_size image

drop_append_lem : (n : ℕ) (xs ys : List ℕ) → n ≤ length xs → drop n (xs ++ ys) ≡ drop n xs ++ ys
drop_append_lem zero xs ys h = refl
drop_append_lem (suc n) [] ys h = absurd (omega arith)
drop_append_lem (suc n) (x ∷ xs) ys h = drop_append_lem n xs ys (omega arith)

pub length-with_super :
    (s : Superblock) (image : List ℕ)
    → super_size ≤ length image
    → length (with_super s image) ≡ length image
length-with_super s image h = omega (
  arith,
  length-append {0} (super_bytes s) (drop super_size image),
  length-super_bytes s,
  length-drop {0} super_size image,
)

pub with_super-append :
    (s : Superblock) (image rest : List ℕ)
    → super_size ≤ length image
    → with_super s (image ++ rest) ≡ with_super s image ++ rest
with_super-append s image rest h =
    ap (λ l. super_bytes s ++ l) (drop_append_lem super_size image rest h)
    ∙ sym (append_assoc (super_bytes s) (drop super_size image) rest)

-- read_super_4 of such an image.
pub read_super_4-with_super :
    (s : Superblock) (rest : List ℕ)
    → IsSuper s
    → s.s_magic ≡ squashfs_magic
    → s.s_major ≡ 4
    → s.s_minor ≡ 0
    → read_super_4 (plain_image (super_bytes s ++ rest)) ≡ version_4 s
unfolding read_super_4
read_super_4-with_super s rest h a b d =
    let bytes : read_fs_bytes (plain_image (super_bytes s ++ rest)) 0 super_size
        ≡ some (super_bytes s) =
      read_fs_bytes-append [] (super_bytes s) rest in
    let good : is_version_4 s ≡ true = rw (a, b, d) refl in
    rw bytes (
      ap (λ (k : Superblock). if is_version_4 k then version_4 k else other_version)
        (super_of-super_bytes s h)
      ∙ rw good refl)
