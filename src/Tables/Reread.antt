-- ===== src/Tables/Reread.antt =====
-- What read_filesystem_tables of squashfs-tools/unsquash-4.c reads of them, whatever stands in front.
use mathlib.Core.Path.{subst}
use mathlib.Core.List.{append_assoc, append-nil}
use squashfs_tools.Common.{
  ℕ, ◌*◌, ◌%◌, ◌^◌, ◌≤◌, ◌<◌, ◌≡◌, refl, sym, true, false, Option, some, List, [], ◌++◌, length,
  arith, length-append,
}
use squashfs_tools.Metadata.{Compressor}
use squashfs_tools.Metadata.Fetching.{plain_image}
use squashfs_tools.Metadata.Reader.{Image}
use squashfs_tools.Tables.{Fragment}
use squashfs_tools.Tables.Ids.{ids_of}
use squashfs_tools.Tables.Filed.{length-ids_of}
use squashfs_tools.Tables.Super.{Superblock, invalid_blk, IsSuper}
use squashfs_tools.Tables.Filesystem.{
  Tables, read_filesystem_tables, pass_xattrs, pass_ids, pass_exports, pass_fragments, less,
}
use squashfs_tools.Tables.Ready.{IsReady}
use squashfs_tools.Tables.Parts.{less_lem, less-false}
use squashfs_tools.Tables.Pieces.{join2, Pieces, behind, made}

-- The counts of the superblock are those of the tables.
ready_counts :
    (compression : ℕ) (t : Tables) (s : Superblock)
    → IsReady compression t s
    → (length (ids_of t.ids.id_table) ≤ s.inodes * 2)
      × (length t.ids.id_table % 2 ^ 16 ≡ length (ids_of t.ids.id_table))
      × (length t.fragments % 2 ^ 32 ≡ length t.fragments)
ready_counts compression t s r = (
  omega (arith, length-ids_of t.ids.id_table, r.few_ids),
  omega (arith, length-ids_of t.ids.id_table, r.short_ids),
  omega (arith, r.few_fragments, r.inodes),
)

pub same_longer : (a b x : List ℕ) → length a ≡ length b → length (a ++ x) ≡ length (b ++ x)
same_longer a b x h = omega (arith, length-append {0} a x, length-append {0} b x, h)

-- read_filesystem_tables, when each step gives what was put down.
load_steps :
    (c : Compressor) (image : Image) (read_xattrs : Superblock → Option ℕ) (s : Superblock)
    (ids : List ℕ) (fragments : List Fragment) (ids_start exports_start fragments_start : ℕ)
    → s.xattr_id_table_start ≡ invalid_blk
    → pass_ids c image s s.bytes_used ≡ some (ids, ids_start)
    → pass_exports image s ids_start ≡ some exports_start
    → pass_fragments c image s exports_start ≡ some (fragments, fragments_start)
    → less fragments_start s.directory_table_start ≡ false
    → less s.inode_table_start s.directory_table_start ≡ true
    → read_filesystem_tables c image read_xattrs s
      ≡ some (record { id_table = ids; fragment_table = fragments })
unfolding read_filesystem_tables
load_steps c image read_xattrs s ids fragments ids_start exports_start fragments_start a b d e f g =
    let x : pass_xattrs read_xattrs s ≡ some s.bytes_used = rw a refl in rw (x, b, d, e, f, g) refl

pub read_done :
    (c : Compressor) (compression : ℕ) (t : Tables) (s : Superblock) (image front : List ℕ)
    (read_xattrs : Superblock → Option ℕ) (p : Pieces c t image)
    → IsReady compression t s
    → length front ≡ length image
    → length (behind c t image p image) < 2 ^ 63
    → read_filesystem_tables c
        (plain_image (behind c t image p front))
        read_xattrs
        (made compression c t s image p)
      ≡ some (record { id_table = ids_of t.ids.id_table; fragment_table = t.fragments })
read_done c compression t s image front read_xattrs p r same small =
    let im2 = join2 image p.inode_table p.directory_table in
    let img2 = join2 front p.inode_table p.directory_table in
    let same2 : length img2 ≡ length im2 =
      same_longer (front ++ p.inode_table) (image ++ p.inode_table) p.directory_table
        (same_longer front image p.inode_table same) in
    let same3 = same_longer img2 im2 p.fragment_part same2 in
    let same4 =
      same_longer (img2 ++ p.fragment_part) (im2 ++ p.fragment_part) p.lookup_part same3 in
    let n5 = length-append ((im2 ++ p.fragment_part) ++ p.lookup_part) p.id_part in
    let n4 = length-append (im2 ++ p.fragment_part) p.lookup_part in
    let n3 = length-append im2 p.fragment_part in
    let n2 = length-append (image ++ p.inode_table) p.directory_table in
    let n1 = length-append image p.inode_table in
    let s' = made compression c t s image p in
    let img4 = (img2 ++ p.fragment_part) ++ p.lookup_part in
    let (few, no_ids, fragments) = ready_counts compression t s r in
    let ids = p.ids_read s' img4 [] same4 small no_ids few refl in
    load_steps c (plain_image (behind c t image p front)) read_xattrs s' (ids_of t.ids.id_table)
      t.fragments (length ((im2 ++ p.fragment_part) ++ p.lookup_part))
      (length (im2 ++ p.fragment_part)) (length im2) refl
      (subst
        (λ k.
          pass_ids c (plain_image k) s' (length (behind c t image p image))
          ≡ some (ids_of t.ids.id_table, length ((im2 ++ p.fragment_part) ++ p.lookup_part)))
        (append-nil (img4 ++ p.id_part)) ids.0)
      (p.lookups_read s' (img2 ++ p.fragment_part) p.id_part same3 (omega (arith, small, n5))
        (sym r.inode_count) refl).0
      (subst
        (λ k.
          pass_fragments c (plain_image k) s' (length (im2 ++ p.fragment_part))
          ≡ some (t.fragments, length im2))
        (sym (append_assoc (img2 ++ p.fragment_part) p.lookup_part p.id_part))
        (p.fragments_read s' img2 (p.lookup_part ++ p.id_part) same2 (omega (arith, small, n5, n4))
          fragments r.few_fragments refl).0)
      (less-false (length im2) (length (image ++ p.inode_table)) (omega (arith, n2))
        (omega (arith, small, n5, n4, n3)))
      (less_lem (length image) (length (image ++ p.inode_table)) (omega (arith, n1, p.some_inodes))
        (omega (arith, small, n5, n4, n3, n2)))

-- Every number of the superblock fits its field.
pub made-IsSuper :
    (c : Compressor) (compression : ℕ) (t : Tables) (s : Superblock) (image : List ℕ)
    (p : Pieces c t image)
    → IsReady compression t s
    → length (behind c t image p image) < 2 ^ 63
    → IsSuper (made compression c t s image p)
made-IsSuper c compression t s image p r small =
    let im2 = join2 image p.inode_table p.directory_table in
    let im3 = im2 ++ p.fragment_part in
    let im4 = im3 ++ p.lookup_part in
    let n5 = length-append im4 p.id_part in
    let n4 = length-append im3 p.lookup_part in
    let n2 = length-append (image ++ p.inode_table) p.directory_table in
    let n3 = length-append im2 p.fragment_part in
    let n1 = length-append image p.inode_table in
    let (few, no_ids, fragments) = ready_counts compression t s r in
    let s' = made compression c t s image p in
    record {
      s_magic = omega (arith, r.s_magic);
      inodes = r.inodes;
      mkfs_time = r.mkfs_time;
      block_size = r.block_size;
      fragments = omega arith;
      compression = r.comp_id;
      block_log = r.block_log;
      flags = r.flags;
      no_ids = omega arith;
      s_major = omega (arith, r.s_major);
      s_minor = omega (arith, r.s_minor);
      root_inode = r.root_inode;
      bytes_used = omega (arith, small);
      id_table_start = (p.ids_read s' im4 [] refl small no_ids few refl).1;
      xattr_id_table_start = omega arith;
      inode_table_start = omega (arith, small, n5, n4, n3, n2, n1);
      directory_table_start = omega (arith, small, n5, n4, n3, n2);
      fragment_table_start =
          (p.fragments_read s' im2 [] refl (omega (arith, small, n5, n4)) fragments r.few_fragments
            refl).1;
      lookup_table_start =
          (p.lookups_read s' im3 [] refl (omega (arith, small, n5)) (sym r.inode_count) refl).1;
    }
