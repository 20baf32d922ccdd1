-- ===== src/Inode/ReadInode.antt =====
-- read_inode of squashfs-tools/unsquash-4.c. What it reads with read_inode_data is a parameter.
use Prim.Native.Nat.{bit_or}
use squashfs_tools.Common.{
  ℕ, ◌+◌, ◌-◌, ◌*◌, ◌/◌, ◌%◌, ◌^◌, Bool, false, not, Option, none, some, List, [], ◌∷◌, get_or,
  if◌then◌else◌, ◌==◌, ◌>>=◌,
}
use squashfs_tools.Format.Fields.{short_at, int_at, long_at}
use squashfs_tools.Inode.{
  Kind, dir, file, symlink, blkdev, chrdev, fifo, socket, ldir, lreg, lsymlink, lblkdev, lchrdev,
  lfifo, lsocket, invalid,
}
use squashfs_tools.Metadata.Reader.{Place, Read, bytes_of}

-- struct inode of unsquashfs.
pub record Inode : Type 0 where
  pub blocks : ℕ
  pub block_start : ℕ
  pub block_offset : ℕ
  pub data_size : ℕ
  pub fragment : ℕ
  pub frag_bytes : ℕ
  pub gid : ℕ
  pub inode_number : ℕ
  pub mode : ℕ
  pub offset : ℕ
  pub start : ℕ
  pub target : List ℕ
  pub time : ℕ
  pub kind : ℕ
  pub uid : ℕ
  pub sparse : Bool
  pub xattr : ℕ

-- What of the superblock read_inode uses.
pub record Super : Type 0 where
  pub block_size : ℕ
  pub block_log : ℕ

-- The cases of the switch on inode_type.
abbrev pub kind_of : ℕ → Option Kind
kind_of n =
    get_or
      (none
        ∷ some dir
        ∷ some file
        ∷ some symlink
        ∷ some blkdev
        ∷ some chrdev
        ∷ some fifo
        ∷ some socket
        ∷ some ldir
        ∷ some lreg
        ∷ some lsymlink
        ∷ some lblkdev
        ∷ some lchrdev
        ∷ some lfifo
        ∷ some lsocket
        ∷ [])
      n none

-- lookup_type; the bits of a mode that say the type of file.
abbrev pub lookup_type : Kind → ℕ
lookup_type dir = 4 * 2 ^ 12
lookup_type file = 8 * 2 ^ 12
lookup_type symlink = 10 * 2 ^ 12
lookup_type blkdev = 6 * 2 ^ 12
lookup_type chrdev = 2 * 2 ^ 12
lookup_type fifo = 2 ^ 12
lookup_type socket = 12 * 2 ^ 12
lookup_type ldir = 4 * 2 ^ 12
lookup_type lreg = 8 * 2 ^ 12
lookup_type lsymlink = 10 * 2 ^ 12
lookup_type lblkdev = 6 * 2 ^ 12
lookup_type lchrdev = 2 * 2 ^ 12
lookup_type lfifo = 2 ^ 12
lookup_type lsocket = 12 * 2 ^ 12

-- sizeof of the header of each type; 16, that of the base, for those of which no more is read.
abbrev pub size_of : Kind → ℕ
size_of dir = 32
size_of ldir = 40
size_of file = 32
size_of lreg = 56
size_of symlink = 24
size_of lsymlink = 24
size_of blkdev = 24
size_of chrdev = 24
size_of lblkdev = 28
size_of lchrdev = 28
size_of fifo = 16
size_of socket = 16
size_of lfifo = 24
size_of lsocket = 24

-- `type | mode`, where `type` has no bits but the four from bit 12 on.
abbrev pub with_type : ℕ → ℕ → ℕ
with_type type mode = bit_or (type / 2 ^ 12) (mode / 2 ^ 12) * 2 ^ 12 + mode % 2 ^ 12

-- The fields of the base; ids beyond the table are not checked by the source.
abbrev pub set_base : List ℕ → Kind → List ℕ → Inode → Inode
set_base id_table kind base i = record i {
  uid = get_or id_table (short_at 4 base) 0;
  gid = get_or id_table (short_at 6 base) 0;
  mode = with_type (lookup_type kind) (short_at 2 base);
  kind = short_at 0 base;
  time = int_at 8 base;
  inode_number = int_at 12 base;
}

-- The tail end of a file, and its blocks.
abbrev pub frag_bytes_of : Super → ℕ → ℕ → ℕ
frag_bytes_of super fragment file_size =
    if fragment == invalid then 0 else file_size % super.block_size

-- `int blocks`, by its 32 bits.
abbrev pub blocks_of : Super → ℕ → ℕ → ℕ
blocks_of super fragment file_size =
    (if fragment == invalid
      then (file_size + super.block_size - 1) / 2 ^ super.block_log
      else file_size / 2 ^ super.block_log)
    % 2 ^ 32

abbrev pub set_dir : List ℕ → Inode → Inode
set_dir h i = record i {
  data_size = short_at 24 h;
  offset = short_at 26 h;
  start = int_at 16 h;
  xattr = invalid;
}

abbrev pub set_ldir : List ℕ → Inode → Inode
set_ldir h i = record i {
  data_size = int_at 20 h;
  offset = short_at 34 h;
  start = int_at 24 h;
  xattr = int_at 36 h;
}

abbrev pub set_file : Super → List ℕ → Place → Inode → Inode
set_file super h place i = record i {
  data_size = int_at 28 h;
  frag_bytes = frag_bytes_of super (int_at 20 h) (int_at 28 h);
  fragment = int_at 20 h;
  offset = int_at 24 h;
  blocks = blocks_of super (int_at 20 h) (int_at 28 h);
  start = int_at 16 h;
  block_start = place.blk;
  block_offset = place.off;
  sparse = false;
  xattr = invalid;
}

abbrev pub set_lreg : Super → List ℕ → Place → Inode → Inode
set_lreg super h place i = record i {
  data_size = long_at 24 h;
  frag_bytes = frag_bytes_of super (int_at 44 h) (long_at 24 h);
  fragment = int_at 44 h;
  offset = int_at 48 h;
  blocks = blocks_of super (int_at 44 h) (long_at 24 h);
  start = long_at 16 h;
  block_start = place.blk;
  block_offset = place.off;
  sparse = not (long_at 32 h == 0);
  xattr = int_at 52 h;
}

abbrev pub set_symlink : List ℕ → List ℕ → Inode → Inode
set_symlink h target i = record i { target = target; data_size = int_at 20 h }

module _ (read : Place → ℕ → Read) where
  -- The xattr behind the target of a long symbolic link: the source does not look whether it was read.
  abbrev pub xattr_behind : Place → Inode → Inode
  xattr_behind place i = elim (bytes_of (read place 4)) [
    | none ↦ i
    | some (bytes, next) ↦ record i { xattr = int_at 0 bytes }
  ]

  -- The cases, with the header `h` that was read and the place behind it.
  unfoldable pub set_kind : Super → Kind → List ℕ → Place → Inode → Option Inode
  set_kind super dir h place i = some (set_dir h i)
  set_kind super ldir h place i = some (set_ldir h i)
  set_kind super file h place i = some (set_file super h place i)
  set_kind super lreg h place i = some (set_lreg super h place i)
  set_kind super symlink h place i = do
    (target, next) ← bytes_of (read place (int_at 20 h))
    some (record (set_symlink h target i) { xattr = invalid })
  set_kind super lsymlink h place i = do
    (target, next) ← bytes_of (read place (int_at 20 h))
    some (xattr_behind next (set_symlink h target i))
  set_kind super blkdev h place i = some (record i { data_size = int_at 20 h; xattr = invalid })
  set_kind super chrdev h place i = some (record i { data_size = int_at 20 h; xattr = invalid })
  set_kind super lblkdev h place i =
      some (record i { data_size = int_at 20 h; xattr = int_at 24 h })
  set_kind super lchrdev h place i =
      some (record i { data_size = int_at 20 h; xattr = int_at 24 h })
  set_kind super fifo h place i = some (record i { data_size = 0; xattr = invalid })
  set_kind super socket h place i = some (record i { data_size = 0; xattr = invalid })
  set_kind super lfifo h place i = some (record i { data_size = 0; xattr = int_at 20 h })
  set_kind super lsocket h place i = some (record i { data_size = 0; xattr = int_at 20 h })

  -- The header of the inode's type, read from the start again, for those types of which it is read.
  abbrev pub read_rest : Kind → List ℕ → Place → Place → Option (List ℕ × Place)
  read_rest kind base next place =
      if size_of kind == 16 then some (base, next) else bytes_of (read place (size_of kind))

  -- read_inode; `i` is what the last call left in its static variable. `none` is EXIT_UNSQUASH.
  unfoldable pub read_inode : Super → List ℕ → Place → Inode → Option Inode
  unfolding set_kind
  read_inode super id_table place i = do
    (base, next) ← bytes_of (read place 16)
    kind ← kind_of (short_at 0 base)
    (h, behind) ← read_rest kind base next place
    set_kind super kind h behind (set_base id_table kind base i)
