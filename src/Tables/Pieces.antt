-- ===== src/Tables/Pieces.antt =====
-- The tables that write_filesystem_tables of squashfs-tools/mksquashfs.c puts behind an image.
use mathlib.Core.Path.{subst}
use squashfs_tools.Common.{
  ℕ, ◌%◌, ◌^◌, ◌<◌, ◌≡◌, refl, ap, ◌∙◌, ◌||◌, some, List, ◌++◌, length, arith,
}
use squashfs_tools.Metadata.{Compressor, write_table}
use squashfs_tools.Metadata.Blocks.{IsLossless}
use squashfs_tools.Metadata.Flushing.{write_table_lem}
use squashfs_tools.Tables.{write_id_table, write_fragment_table}
use squashfs_tools.Tables.Ids.{ids_of}
use squashfs_tools.Tables.Filed.{length-ids_of}
use squashfs_tools.Tables.Super.{Superblock, invalid_blk}
use squashfs_tools.Tables.Filesystem.{Tables, write_filesystem_tables}
use squashfs_tools.Tables.Ready.{no_xattrs, IsReady, table_some, with_super}
use squashfs_tools.Tables.Parts.{IdsRead, ids_written, FragmentsRead, fragments_written}
use squashfs_tools.Tables.Exports.{ExportsRead, put_lookups, exports_written}

-- An image with more and more tables behind it.
abbrev pub join2 : List ℕ → List ℕ → List ℕ → List ℕ
join2 image i d = (image ++ i) ++ d

abbrev pub join3 : List ℕ → List ℕ → List ℕ → List ℕ → List ℕ
join3 image i d f = join2 image i d ++ f

abbrev pub join4 : List ℕ → List ℕ → List ℕ → List ℕ → List ℕ → List ℕ
join4 image i d f x = join3 image i d f ++ x

abbrev join5 : List ℕ → List ℕ → List ℕ → List ℕ → List ℕ → List ℕ → List ℕ
join5 image i d f x u = join4 image i d f x ++ u

-- The bytes from the tables of inodes on, piece by piece, with the image in front of each.
pub record Pieces (c : Compressor) (t : Tables) (image : List ℕ) : Type 0 where
  pub inode_table : List ℕ
  pub directory_table : List ℕ
  pub fragment_part : List ℕ
  pub lookup_part : List ℕ
  pub id_part : List ℕ
  pub fragment_start : ℕ
  pub lookup_start : ℕ
  pub id_start : ℕ
  pub inodes_done : write_table c t.no_i t.inodes ≡ some inode_table
  pub some_inodes : 0 < length inode_table
  pub directories_done : write_table c t.no_i t.directories ≡ some directory_table
  pub fragments_done :
      write_fragment_table c t.no_f t.fragments (join2 image inode_table directory_table)
      ≡ some (fragment_start, join3 image inode_table directory_table fragment_part)
  pub fragments_read :
      FragmentsRead c t.fragments
        (join2 image inode_table directory_table)
        fragment_part
        fragment_start
        (join3 image inode_table directory_table fragment_part)
  pub lookups_done :
      put_lookups c t (join3 image inode_table directory_table fragment_part)
      ≡ some (lookup_start, join4 image inode_table directory_table fragment_part lookup_part)
  pub lookups_read :
      ExportsRead
        (join3 image inode_table directory_table fragment_part)
        lookup_part
        (length t.inode_lookup_table)
        lookup_start
        (join4 image inode_table directory_table fragment_part lookup_part)
  pub ids_done :
      write_id_table c
        (t.no_i || t.no_id)
        (ids_of t.ids.id_table)
        (join4 image inode_table directory_table fragment_part lookup_part)
      ≡ some (id_start, join5 image inode_table directory_table fragment_part lookup_part id_part)
  pub ids_read :
      IdsRead c
        (ids_of t.ids.id_table)
        (join4 image inode_table directory_table fragment_part lookup_part)
        id_part
        id_start
        (join5 image inode_table directory_table fragment_part lookup_part id_part)

pub lay_tables :
    (c : Compressor) (compression : ℕ) (t : Tables) (s : Superblock) (image : List ℕ)
    → IsLossless c
    → IsReady compression t s
    → Pieces c t image
lay_tables c compression t s image l r =
    let (inode_table, i, some_inodes) = table_some c t.no_i t.inodes l r.some_inode in
    let (w, d, f) = write_table_lem c t.no_i t.directories l in
    let image2 = (image ++ inode_table) ++ w.table in
    let (fs, image3, fp, fd, fw, fr) =
      fragments_written c t.no_f t.fragments image2 l r.fragments in
    let (ls, image4, lp, ld, lw, lr) =
      exports_written c t (image2 ++ fp) l (omega (arith, r.inode_count, r.some_id, r.few_ids))
        (λ e. omega (arith, r.inode_count, r.few_exports e)) in
    let (is, image5, ip, id, iw, ir) =
      ids_written c (t.no_i || t.no_id) (ids_of t.ids.id_table) ((image2 ++ fp) ++ lp) l
        (omega (arith, length-ids_of t.ids.id_table, r.some_id)) r.ids in
    record {
      inode_table = inode_table;
      directory_table = w.table;
      fragment_part = fp;
      lookup_part = lp;
      id_part = ip;
      fragment_start = fs;
      lookup_start = ls;
      id_start = is;
      inodes_done = i;
      some_inodes = some_inodes;
      directories_done = d;
      fragments_done = fd ∙ ap (λ k. some (fs, k)) fw;
      fragments_read = subst (FragmentsRead c t.fragments image2 fp fs) fw fr;
      lookups_done = ld ∙ ap (λ k. some (ls, k)) lw;
      lookups_read = subst (ExportsRead (image2 ++ fp) lp (length t.inode_lookup_table) ls) lw lr;
      ids_done = id ∙ ap (λ k. some (is, k)) iw;
      ids_read = subst (IdsRead c (ids_of t.ids.id_table) ((image2 ++ fp) ++ lp) ip is) iw ir;
    }

-- The bytes behind the pieces, whatever the front.
abbrev pub behind :
    (c : Compressor) (t : Tables) (image : List ℕ) → Pieces c t image → List ℕ → List ℕ
behind c t image p front =
    join5 front p.inode_table p.directory_table p.fragment_part p.lookup_part p.id_part

abbrev pub made :
    (compression : ℕ) (c : Compressor) (t : Tables) (s : Superblock) (image : List ℕ)
    → Pieces c t image
    → Superblock
made compression c t s image p = record s {
  fragments = length t.fragments % 2 ^ 32;
  no_ids = length t.ids.id_table % 2 ^ 16;
  inode_table_start = length image;
  directory_table_start = length (image ++ p.inode_table);
  fragment_table_start = p.fragment_start;
  lookup_table_start = p.lookup_start;
  id_table_start = p.id_start;
  xattr_id_table_start = invalid_blk;
  bytes_used = length (behind c t image p image);
  compression = compression;
}

pub write_done :
    (c : Compressor) (compression : ℕ) (t : Tables) (s : Superblock) (image : List ℕ)
    (p : Pieces c t image)
    → write_filesystem_tables c no_xattrs compression t s image
      ≡ some (
        made compression c t s image p,
        with_super (made compression c t s image p) (behind c t image p image),
      )
unfolding write_filesystem_tables
write_done c compression t s image p =
    rw (p.inodes_done, p.directories_done, p.fragments_done, p.lookups_done, p.ids_done) refl
