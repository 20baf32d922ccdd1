-- ===== src/Inode/Roundtrip.antt =====
-- Each sort of inode, written by create_inode of squashfs-tools/mksquashfs.c and read by read_inode of
-- squashfs-tools/unsquash-4.c.
use squashfs_tools.Common.{◌^◌, ◌<◌, ◌≡◌, ◌⊎◌, refl, true, false, ◌++◌, length, arith}
use squashfs_tools.Format.Fields.{field, number-short, number-int, number-long}
use squashfs_tools.Inode.{
  Kind, dir, file, symlink, ldir, lreg, invalid, is_xattr, Source, Times, base_bytes, sparse_bytes,
  rdev, file_bytes, lreg_bytes, dir_bytes, ldir_bytes,
}
use squashfs_tools.Inode.Laws.{Fits, with_rest}
use squashfs_tools.Inode.ReadInode.{
  Inode, Super, set_dir, set_ldir, set_file, set_lreg, set_symlink,
}
use squashfs_tools.Metadata.Reader.{Place}

-- What else the headers of directories and symbolic links ask for: a short directory has a size of 16
-- bits.
abbrev pub Suits : Kind → Source → Type 0
Suits dir s =
    (s.start_block < 2 ^ 32)
    × (s.offset < 2 ^ 16)
    × (s.byte_size < 2 ^ 32)
    × ((s.dir_is_ldir ≡ true) ⊎ (s.byte_size < 2 ^ 16))
Suits symlink s = (0 < length s.target) × (length s.target < 2 ^ 32)
Suits other s = Unit

pub no_xattr : (s : Source) → is_xattr s.xattr ≡ false → s.xattr ≡ invalid
no_xattr s h = ground arith

pub rdev_small : (s : Source) → rdev s < 2 ^ 32
unfolding rdev
rdev_small s = ground arith

pub set_dir-with_rest :
    (opts : Times) (super : Super) (s : Source) (place : Place) (j : Inode)
    → s.xattr ≡ invalid
    → s.start_block < 2 ^ 32
    → s.offset < 2 ^ 16
    → s.byte_size < 2 ^ 16
    → set_dir (base_bytes opts dir s ++ dir_bytes s) j ≡ with_rest super dir s place j
unfolding with_rest
set_dir-with_rest opts super s place j x p q b =
    rw (x, number-short s.byte_size b, number-short s.offset q, number-int s.start_block p) refl

pub set_ldir-with_rest :
    (opts : Times) (super : Super) (s : Source) (place : Place) (j : Inode)
    → s.xattr < 2 ^ 32
    → s.start_block < 2 ^ 32
    → s.offset < 2 ^ 16
    → s.byte_size < 2 ^ 32
    → set_ldir (base_bytes opts ldir s ++ ldir_bytes s) j ≡ with_rest super dir s place j
unfolding with_rest
set_ldir-with_rest opts super s place j x p q b =
    rw
      (
        number-int s.xattr x,
        number-int s.byte_size b,
        number-short s.offset q,
        number-int s.start_block p,
      )
      refl

pub set_file-with_rest :
    (opts : Times) (super : Super) (s : Source) (place : Place) (j : Inode)
    → Fits opts s
    → s.xattr ≡ invalid
    → s.sparse ≡ 0
    → s.start_block < 2 ^ 32
    → s.byte_size < 2 ^ 32
    → set_file super (base_bytes opts file s ++ file_bytes s) place j
      ≡ with_rest super file s place j
unfolding with_rest sparse_bytes
set_file-with_rest opts super s place j f x z p b =
    rw
      (
        x,
        z,
        number-int s.byte_size b,
        number-int s.start_block p,
        number-int s.fragment_index f.fragment_index,
        number-int s.fragment_offset f.fragment_offset,
      )
      refl

sparse_bytes_small : (s : Source) → s.sparse < 2 ^ 64 → sparse_bytes s < 2 ^ 64
unfolding sparse_bytes
sparse_bytes_small s h = ground arith

pub set_lreg-with_rest :
    (opts : Times) (super : Super) (s : Source) (place : Place) (j : Inode)
    → Fits opts s
    → set_lreg super (base_bytes opts lreg s ++ lreg_bytes s) place j
      ≡ with_rest super file s place j
unfolding with_rest
set_lreg-with_rest opts super s place j f =
    rw
      (
        number-int s.xattr f.xattr,
        number-long s.byte_size f.byte_size,
        number-long s.start_block f.start_block,
        number-int s.fragment_index f.fragment_index,
        number-int s.fragment_offset f.fragment_offset,
        number-long (sparse_bytes s) (sparse_bytes_small s f.sparse),
      )
      refl

pub set_symlink-with_rest :
    (opts : Times) (super : Super) (s : Source) (place : Place) (j : Inode)
    → length s.target < 2 ^ 32
    → s.xattr ≡ invalid
    → record (set_symlink
        (base_bytes opts symlink s ++ (field 4 s.nlink ++ field 4 (length s.target)))
        s.target
        j) { xattr = invalid }
      ≡ with_rest super symlink s place j
unfolding with_rest
set_symlink-with_rest opts super s place j p x = rw (x, number-int (length s.target) p) refl
