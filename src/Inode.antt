-- ===== src/Inode.antt =====
-- Inodes on disk: the bytes that create_inode of squashfs-tools/mksquashfs.c hands to get_inode.
pub mod ReadInode
pub mod Laws
pub mod Roundtrip
pub mod Cases
pub mod Sorts
pub mod Image
mod Tests
use squashfs_tools.Common.{
  ℕ, suc, ◌+◌, ◌-◌, ◌*◌, ◌/◌, ◌%◌, ◌^◌, Bool, true, false, not, ◌&&◌, ◌||◌, Option, none, some,
  List, [], ◌∷◌, ◌++◌, length, take, get_elem?, if◌then◌else◌, ◌==◌, ltb, leb, ◌>>=◌,
}
use squashfs_tools.DirTable.{Index}
use squashfs_tools.Format.Fields.{field, ints}

-- The types of inodes, SQUASHFS_DIR_TYPE to SQUASHFS_LSOCKET_TYPE.
pub data Kind : Type 0 where
  dir file symlink blkdev chrdev fifo socket : Kind
  ldir lreg lsymlink lblkdev lchrdev lfifo lsocket : Kind

abbrev pub code : Kind → ℕ
code dir = 1
code file = 2
code symlink = 3
code blkdev = 4
code chrdev = 5
code fifo = 6
code socket = 7
code ldir = 8
code lreg = 9
code lsymlink = 10
code lblkdev = 11
code lchrdev = 12
code lfifo = 13
code lsocket = 14

-- SQUASHFS_INVALID_XATTR, and SQUASHFS_INVALID_FRAG.
abbrev pub invalid : ℕ
invalid = 2 ^ 32 - 1

-- IS_XATTR.
abbrev pub is_xattr : ℕ → Bool
is_xattr xattr = not (xattr == invalid)

-- What create_inode is called with, and what it takes from dir_ent and its inode: uid and guid are
-- what get_uid and get_guid give, `parent` what get_parent_no gives. A sparse count is a long long.
pub record Source : Type 0 where
  pub mode : ℕ
  pub uid : ℕ
  pub guid : ℕ
  pub mtime : ℕ
  pub inode_number : ℕ
  pub nlink : ℕ
  pub xattr : ℕ
  pub byte_size : ℕ
  pub start_block : ℕ
  pub offset : ℕ
  pub block_list : List ℕ
  pub fragment_index : ℕ
  pub fragment_offset : ℕ
  pub sparse : ℕ
  pub dir_is_ldir : Bool
  pub directory_count : ℕ
  pub parent : ℕ
  pub index : List Index
  pub major : ℕ
  pub minor : ℕ
  pub target : List ℕ

-- The options -all-time and its clamping.
pub record Times : Type 0 where
  pub all_time_opt : Bool
  pub clamping : Bool
  pub all_time : ℕ

-- get_time.
unfoldable pub get_time : Times → ℕ → ℕ
get_time opts time =
    if opts.all_time_opt
    then (if opts.clamping
        then (if ltb opts.all_time time then opts.all_time else time)
        else opts.all_time)
    else time

-- The switch on the type: which inodes are of the long sort.
unfoldable pub choose_kind : Kind → Source → Kind
choose_kind file s =
    if ltb 1 s.nlink
      || leb (2 ^ 32) s.byte_size
      || leb (2 ^ 32) s.start_block
      || not (s.sparse == 0)
      || is_xattr s.xattr
    then lreg
    else file
choose_kind dir s = if s.dir_is_ldir || is_xattr s.xattr then ldir else dir
choose_kind symlink s = if is_xattr s.xattr then lsymlink else symlink
choose_kind blkdev s = if is_xattr s.xattr then lblkdev else blkdev
choose_kind chrdev s = if is_xattr s.xattr then lchrdev else chrdev
choose_kind fifo s = if is_xattr s.xattr then lfifo else fifo
choose_kind socket s = if is_xattr s.xattr then lsocket else socket
choose_kind other s = other

-- struct squashfs_base_inode_header; SQUASHFS_MODE takes the low 12 bits.
abbrev pub base_bytes : Times → Kind → Source → List ℕ
base_bytes opts kind s =
    field 2 (code kind)
    ++ (field 2 (s.mode % 2 ^ 12)
        ++ (field 2 s.uid
            ++ (field 2 s.guid ++ (field 4 (get_time opts s.mtime) ++ field 4 s.inode_number))))

-- The sparse count of a long regular file: less than the size.
unfoldable pub sparse_bytes : Source → ℕ
sparse_bytes s =
    if not (s.sparse == 0) && leb s.byte_size s.sparse
    then (s.byte_size + 2 ^ 64 - 1) % 2 ^ 64
    else s.sparse

-- The device number, of a major number of 12 bits and a minor one of 20.
unfoldable pub rdev : Source → ℕ
rdev s =
    let major = (if ltb (2 ^ 12 - 1) s.major then s.major % 2 ^ 12 else s.major) in
    let minor = (if ltb (2 ^ 20 - 1) s.minor then s.minor % 2 ^ 20 else s.minor) in
    major * 2 ^ 8 + minor % 2 ^ 8 + minor / 2 ^ 8 * 2 ^ 20

-- The loop over the index of a long directory; of a name size + 1 bytes.
abbrev pub index_bytes : List Index → List ℕ
index_bytes [] = []
index_bytes (x ∷ xs) =
    (field 4 x.index ++ (field 4 x.start_block ++ (field 4 x.size ++ take (x.size + 1) x.name)))
    ++ index_bytes xs

-- The fields of each sort of header behind those of the base.
abbrev pub file_bytes : Source → List ℕ
file_bytes s =
    field 4 s.start_block
    ++ (field 4 s.fragment_index ++ (field 4 s.fragment_offset ++ field 4 s.byte_size))

abbrev pub lreg_bytes : Source → List ℕ
lreg_bytes s =
    field 8 s.start_block
    ++ (field 8 s.byte_size
        ++ (field 8 (sparse_bytes s)
            ++ (field 4 s.nlink
                ++ (field 4 s.fragment_index ++ (field 4 s.fragment_offset ++ field 4 s.xattr)))))

abbrev pub dir_bytes : Source → List ℕ
dir_bytes s =
    field 4 s.start_block
    ++ (field 4 (s.directory_count + 2)
        ++ (field 2 s.byte_size ++ (field 2 s.offset ++ field 4 s.parent)))

abbrev pub ldir_bytes : Source → List ℕ
ldir_bytes s =
    field 4 (s.directory_count + 2)
    ++ (field 4 s.byte_size
        ++ (field 4 s.start_block
            ++ (field 4 s.parent
                ++ (field 2 (length s.index) ++ (field 2 s.offset ++ field 4 s.xattr)))))

-- What stands behind the base: the fields, and what follows the structure. The first ones of a file's
-- block list are written, as many as `offset` says; the link count of a pipe or a socket is put to
-- what follows, since it is not read back. `none` is BAD_ERROR.
unfoldable pub body_bytes : Kind → Source → Option (List ℕ × List ℕ)
body_bytes file s = some (file_bytes s, ints (take s.offset s.block_list))
body_bytes lreg s = some (lreg_bytes s, ints (take s.offset s.block_list))
body_bytes ldir s =
    if leb (2 ^ 32) s.byte_size then none else some (ldir_bytes s, index_bytes s.index)
body_bytes dir s = some (dir_bytes s, [])
body_bytes chrdev s = some (field 4 s.nlink ++ field 4 (rdev s), [])
body_bytes blkdev s = some (field 4 s.nlink ++ field 4 (rdev s), [])
body_bytes lchrdev s = some (field 4 s.nlink ++ (field 4 (rdev s) ++ field 4 s.xattr), [])
body_bytes lblkdev s = some (field 4 s.nlink ++ (field 4 (rdev s) ++ field 4 s.xattr), [])
body_bytes symlink s = some (field 4 s.nlink ++ field 4 (length s.target), s.target)
body_bytes lsymlink s =
    some (field 4 s.nlink ++ field 4 (length s.target), s.target ++ field 4 s.xattr)
body_bytes fifo s = some ([], field 4 s.nlink)
body_bytes socket s = some ([], field 4 s.nlink)
body_bytes lfifo s = some (field 4 s.nlink ++ field 4 s.xattr, [])
body_bytes lsocket s = some (field 4 s.nlink ++ field 4 s.xattr, [])

-- create_inode: the bytes that it puts at the place of get_inode.
unfoldable pub create_inode : Times → Kind → Source → Option (List ℕ)
create_inode opts kind s = do
  (fields, rest) ← body_bytes (choose_kind kind s) s
  some (base_bytes opts (choose_kind kind s) s ++ (fields ++ rest))
