-- ===== src/Inode/Image.antt =====
-- All sorts of inodes, from create_inode of squashfs-tools/mksquashfs.c through the blocks of the inode
-- table to read_inode of squashfs-tools/unsquash-4.c.
use squashfs_tools.Common.{ℕ, List, [], ◌∷◌}
use squashfs_tools.Inode.{Kind, Source, Times, create_inode}
use squashfs_tools.Inode.Laws.{Fits}
use squashfs_tools.Inode.ReadInode.{Inode, Super}
use squashfs_tools.Inode.Roundtrip.{Suits}
use squashfs_tools.Inode.Cases.{bytes_or_none, IsRead}
use squashfs_tools.Inode.Sorts.{IsBasic}
use squashfs_tools.Metadata.{Compressor}
use squashfs_tools.Metadata.Roundtrip.{place_of}
use squashfs_tools.Metadata.Reader.{Image}
use squashfs_tools.Metadata.ByteReader.{image_reader}

-- An inode for create_inode.
pub record New : Type 0 where
  pub kind : Kind
  pub source : Source

abbrev pub bytes_of_new : Times → New → List ℕ
bytes_of_new opts n = bytes_or_none (create_inode opts n.kind n.source)

pub record IsGood (opts : Times) (n : New) : Type 0 where
  pub basic : IsBasic n.kind
  pub fits : Fits opts n.source
  pub suits : Suits n.kind n.source

-- read_inode gives at the place what the source of the inode says.
abbrev pub IsSeen : Compressor → Image → ℕ → Times → Super → List ℕ → Inode → New → ℕ → Type 0
IsSeen c image start opts super id_table i n inode =
    (more : List ℕ) × IsRead (image_reader c image) opts super id_table n.kind n.source i
      (place_of start inode) more

abbrev pub AreSeen :
    Compressor → Image → ℕ → Times → Super → List ℕ → Inode → List New → List ℕ → Type 0
AreSeen c image start opts super id_table i [] [] = Unit
AreSeen c image start opts super id_table i (n ∷ ns) (p ∷ ps) =
    IsSeen c image start opts super id_table i n p
    × AreSeen c image start opts super id_table i ns ps
AreSeen c image start opts super id_table i _ _ = ⊥
