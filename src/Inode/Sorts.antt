-- ===== src/Inode/Sorts.antt =====
-- read_inode of squashfs-tools/unsquash-4.c gives what create_inode of squashfs-tools/mksquashfs.c was
-- given, for all sorts of inodes.
use squashfs_tools.Common.{ℕ, ◌^◌, ◌≤◌, ◌<◌, ◌≡◌, refl, sym, ap, ap₂, some, List, [], ◌++◌, arith}
use squashfs_tools.Format.Fields.{field, number-int}
use squashfs_tools.Inode.{
  Kind, dir, file, symlink, blkdev, chrdev, fifo, socket, ldir, lreg, lsymlink, lblkdev, lchrdev,
  lfifo, lsocket, invalid, code, Source, Times, base_bytes, rdev, choose_kind, body_bytes,
  create_inode,
}
use squashfs_tools.Inode.Laws.{Fits, with_rest}
use squashfs_tools.Inode.ReadInode.{Inode, Super, set_kind}
use squashfs_tools.Inode.Roundtrip.{Suits, rdev_small}
use squashfs_tools.Inode.Cases.{
  bytes_or_none, Parsed, Returns, dir_roundtrip, file_roundtrip, symlink_roundtrip, fixed_roundtrip,
}
use squashfs_tools.Metadata.Reader.{Place}
use squashfs_tools.Metadata.ByteReader.{ByteReader}

-- The types that create_inode is called with: SQUASHFS_DIR_TYPE to SQUASHFS_SOCKET_TYPE.
abbrev pub IsBasic : Kind → Type 0
IsBasic k = code k ≤ 7

module _ (r : ByteReader) where
  open r use {At}

  blkdev_read :
      (opts : Times) (super : Super) (s : Source) (y : List ℕ)
      → s.xattr ≡ invalid
      → Parsed r super blkdev blkdev s
          (base_bytes opts blkdev s ++ (field 4 s.nlink ++ field 4 (rdev s)))
          []
          y
  unfolding Parsed set_kind with_rest
  blkdev_read opts super s y x next j at = (
    ap₂ (λ d a. some (record j { data_size = d; xattr = a })) (number-int (rdev s) (rdev_small s))
        (sym x),
    tt,
  )

  chrdev_read :
      (opts : Times) (super : Super) (s : Source) (y : List ℕ)
      → s.xattr ≡ invalid
      → Parsed r super chrdev chrdev s
          (base_bytes opts chrdev s ++ (field 4 s.nlink ++ field 4 (rdev s)))
          []
          y
  unfolding Parsed set_kind with_rest
  chrdev_read opts super s y x next j at = (
    ap₂ (λ d a. some (record j { data_size = d; xattr = a })) (number-int (rdev s) (rdev_small s))
        (sym x),
    tt,
  )

  lblkdev_read :
      (opts : Times) (super : Super) (s : Source) (y : List ℕ)
      → s.xattr < 2 ^ 32
      → Parsed r super blkdev lblkdev s
          (base_bytes opts lblkdev s ++ (field 4 s.nlink ++ (field 4 (rdev s) ++ field 4 s.xattr)))
          []
          y
  unfolding Parsed set_kind with_rest
  lblkdev_read opts super s y x next j at = (
    ap₂ (λ d a. some (record j { data_size = d; xattr = a })) (number-int (rdev s) (rdev_small s))
        (number-int s.xattr x),
    tt,
  )

  lchrdev_read :
      (opts : Times) (super : Super) (s : Source) (y : List ℕ)
      → s.xattr < 2 ^ 32
      → Parsed r super chrdev lchrdev s
          (base_bytes opts lchrdev s ++ (field 4 s.nlink ++ (field 4 (rdev s) ++ field 4 s.xattr)))
          []
          y
  unfolding Parsed set_kind with_rest
  lchrdev_read opts super s y x next j at = (
    ap₂ (λ d a. some (record j { data_size = d; xattr = a })) (number-int (rdev s) (rdev_small s))
        (number-int s.xattr x),
    tt,
  )

  -- read_inode gives what create_inode was given.
  pub create_inode-read_inode :
      (opts : Times) (super : Super) (id_table : List ℕ) (kind : Kind) (s : Source) (i : Inode)
      (place : Place) (y : List ℕ)
      → IsBasic kind
      → Fits opts s
      → Suits kind s
      → At place (bytes_or_none (create_inode opts kind s) ++ y)
      → Returns r opts super id_table kind s i place y
  unfolding choose_kind body_bytes Parsed set_kind with_rest
  create_inode-read_inode opts super id_table dir s i place y b f t at =
      dir_roundtrip r opts super id_table s i place y f t at
  create_inode-read_inode opts super id_table file s i place y b f t at =
      file_roundtrip r opts super id_table s i place y f at
  create_inode-read_inode opts super id_table symlink s i place y b f t at =
      symlink_roundtrip r opts super id_table s i place y f t at
  create_inode-read_inode opts super id_table blkdev s i place y b f t at =
      fixed_roundtrip r opts super id_table blkdev lblkdev s i place y _ _ _ f refl refl refl refl
        refl (blkdev_read opts super s y) (lblkdev_read opts super s y f.xattr) at
  create_inode-read_inode opts super id_table chrdev s i place y b f t at =
      fixed_roundtrip r opts super id_table chrdev lchrdev s i place y _ _ _ f refl refl refl refl
        refl (chrdev_read opts super s y) (lchrdev_read opts super s y f.xattr) at
  create_inode-read_inode opts super id_table fifo s i place y b f t at =
      fixed_roundtrip r opts super id_table fifo lfifo s i place y _ _ _ f refl refl refl refl refl
        (λ x next j k. (ap (λ a. some (record j { data_size = 0; xattr = a })) (sym x), tt))
        (λ next j k.
          (ap (λ a. some (record j { data_size = 0; xattr = a })) (number-int s.xattr f.xattr), tt))
        at
  create_inode-read_inode opts super id_table socket s i place y b f t at =
      fixed_roundtrip r opts super id_table socket lsocket s i place y _ _ _ f refl refl refl refl
        refl (λ x next j k. (ap (λ a. some (record j { data_size = 0; xattr = a })) (sym x), tt))
        (λ next j k.
          (ap (λ a. some (record j { data_size = 0; xattr = a })) (number-int s.xattr f.xattr), tt))
        at
  create_inode-read_inode opts super id_table ldir s i place y b f t at = absurd (omega arith)
  create_inode-read_inode opts super id_table lreg s i place y b f t at = absurd (omega arith)
  create_inode-read_inode opts super id_table lsymlink s i place y b f t at = absurd (omega arith)
  create_inode-read_inode opts super id_table lblkdev s i place y b f t at = absurd (omega arith)
  create_inode-read_inode opts super id_table lchrdev s i place y b f t at = absurd (omega arith)
  create_inode-read_inode opts super id_table lfifo s i place y b f t at = absurd (omega arith)
  create_inode-read_inode opts super id_table lsocket s i place y b f t at = absurd (omega arith)
