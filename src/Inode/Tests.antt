-- ===== src/Inode/Tests.antt =====
-- A short regular file and a long symbolic link.
use squashfs_tools.Common.{◌≡◌, refl, false, some, List, [], ◌∷◌}
use squashfs_tools.Inode.{
  Source, Times, get_time, file, symlink, choose_kind, body_bytes, create_inode,
}
use squashfs_tools.Inode.Image.{New}
use squashfs_tools.Inode.ReadInode.{Inode, Super}
use squashfs_tools.Metadata.{Writer}

abbrev blank : Writer
blank = record { cache = []; cache_size = 0; table = []; table_size = 0; total = 0 }

abbrev as_it_is : Times
as_it_is = record { all_time_opt = false; clamping = false; all_time = 0 }

-- A file of 5000 bytes: a block of 4096 bytes stored as 100, and the tail in a fragment.
abbrev small_file : Source
small_file = record {
  mode = 33188;
  uid = 0;
  guid = 1;
  mtime = 1000;
  inode_number = 7;
  nlink = 1;
  xattr = 4294967295;
  byte_size = 5000;
  start_block = 96;
  offset = 1;
  block_list = 100 ∷ [];
  fragment_index = 0;
  fragment_offset = 12;
  sparse = 0;
  dir_is_ldir = false;
  directory_count = 0;
  parent = 0;
  index = [];
  major = 0;
  minor = 0;
  target = [];
}

abbrev link : Source
link = record small_file { xattr = 3; target = b'.' ∷ b'/' ∷ b'a' ∷ [] }

abbrev nothing : Inode
nothing = record {
  blocks = 0;
  block_start = 0;
  block_offset = 0;
  data_size = 0;
  fragment = 0;
  frag_bytes = 0;
  gid = 0;
  inode_number = 0;
  mode = 0;
  offset = 0;
  start = 0;
  target = [];
  time = 0;
  kind = 0;
  uid = 0;
  sparse = false;
  xattr = 0;
}

abbrev super : Super
super = record { block_size = 4096; block_log = 12 }

abbrev two : List New
two = record { kind = file; source = small_file } ∷ record { kind = symlink; source = link } ∷ []

link_bytes :
    create_inode as_it_is symlink link
    ≡ some (
        10 ∷ 0 ∷ 164 ∷ 1 ∷ 0 ∷ 0 ∷ 1 ∷ 0 ∷ 232 ∷ 3 ∷ 0 ∷ 0 ∷ 7 ∷ 0 ∷ 0 ∷ 0 ∷ 1 ∷ 0 ∷ 0 ∷ 0 ∷ 3 ∷ 0
        ∷ 0 ∷ 0 ∷ b'.' ∷ b'/' ∷ b'a' ∷ 3 ∷ 0 ∷ 0 ∷ 0 ∷ [])
unfolding create_inode choose_kind body_bytes get_time
link_bytes = refl
