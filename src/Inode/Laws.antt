-- ===== src/Inode/Laws.antt =====
-- read_inode of squashfs-tools/unsquash-4.c on what create_inode of squashfs-tools/mksquashfs.c wrote.
use mathlib.Core.Path.{subst}
use Prim.Native.Nat.{bit_or}
use squashfs_tools.Common.{
  ℕ, ◌+◌, ◌*◌, ◌/◌, ◌%◌, ◌^◌, ◌<◌, ◌≡◌, refl, sym, ap, ap₂, ◌∙◌, inl, inr, not, some, List, [],
  ◌++◌, length, get_or, ◌==◌, arith, Bool-cases,
}
use squashfs_tools.Format.Fields.{field, number, short_at, int_at, number-short, number-int}
use squashfs_tools.Inode.{
  Kind, dir, file, symlink, blkdev, chrdev, fifo, socket, ldir, lreg, lsymlink, lblkdev, lchrdev,
  lfifo, lsocket, code, Source, Times, get_time, base_bytes, sparse_bytes, rdev,
}
use squashfs_tools.Inode.ReadInode.{
  Inode, Super, kind_of, lookup_type, with_type, size_of, set_base, frag_bytes_of, blocks_of,
  set_kind, read_rest, read_inode,
}
use squashfs_tools.Metadata.Reader.{Place, got, bytes_of}
use squashfs_tools.Metadata.Flushing.{nil_of_length}
use squashfs_tools.Metadata.ByteReader.{ByteReader}

-- The values that the fields of the headers can hold.
pub record Fits (opts : Times) (s : Source) : Type 0 where
  pub uid : s.uid < 2 ^ 16
  pub guid : s.guid < 2 ^ 16
  pub time : get_time opts s.mtime < 2 ^ 32
  pub inode_number : s.inode_number < 2 ^ 32
  pub xattr : s.xattr < 2 ^ 32
  pub fragment_index : s.fragment_index < 2 ^ 32
  pub fragment_offset : s.fragment_offset < 2 ^ 32
  pub byte_size : s.byte_size < 2 ^ 64
  pub start_block : s.start_block < 2 ^ 64
  pub sparse : s.sparse < 2 ^ 64

-- What the base says of an inode.
abbrev pub with_base : Times → List ℕ → Kind → Source → Inode → Inode
with_base opts id_table kind s i = record i {
  uid = get_or id_table s.uid 0;
  gid = get_or id_table s.guid 0;
  mode = lookup_type kind + s.mode % 2 ^ 12;
  kind = code kind;
  time = get_time opts s.mtime;
  inode_number = s.inode_number;
}

bit_or_zero : (k : Kind) → bit_or (lookup_type k / 2 ^ 12) 0 * 2 ^ 12 ≡ lookup_type k
bit_or_zero dir = refl
bit_or_zero file = refl
bit_or_zero symlink = refl
bit_or_zero blkdev = refl
bit_or_zero chrdev = refl
bit_or_zero fifo = refl
bit_or_zero socket = refl
bit_or_zero ldir = refl
bit_or_zero lreg = refl
bit_or_zero lsymlink = refl
bit_or_zero lblkdev = refl
bit_or_zero lchrdev = refl
bit_or_zero lfifo = refl
bit_or_zero lsocket = refl

with_type-lookup_type :
    (k : Kind) (m : ℕ) → m < 2 ^ 12 → with_type (lookup_type k) m ≡ lookup_type k + m
with_type-lookup_type k m h =
    let high : m / 2 ^ 12 ≡ 0 = omega arith in
    let low : m % 2 ^ 12 ≡ m = omega arith in
    ap₂ (λ a b. bit_or (lookup_type k / 2 ^ 12) a * 2 ^ 12 + b) high low
    ∙ ap (λ a. a + m) (bit_or_zero k)

kind_of-code : (k : Kind) → kind_of (number (field 2 (code k))) ≡ some k
kind_of-code dir = refl
kind_of-code file = refl
kind_of-code symlink = refl
kind_of-code blkdev = refl
kind_of-code chrdev = refl
kind_of-code fifo = refl
kind_of-code socket = refl
kind_of-code ldir = refl
kind_of-code lreg = refl
kind_of-code lsymlink = refl
kind_of-code lblkdev = refl
kind_of-code lchrdev = refl
kind_of-code lfifo = refl
kind_of-code lsocket = refl

code_small : (k : Kind) → code k < 2 ^ 16
code_small dir = omega arith
code_small file = omega arith
code_small symlink = omega arith
code_small blkdev = omega arith
code_small chrdev = omega arith
code_small fifo = omega arith
code_small socket = omega arith
code_small ldir = omega arith
code_small lreg = omega arith
code_small lsymlink = omega arith
code_small lblkdev = omega arith
code_small lchrdev = omega arith
code_small lfifo = omega arith
code_small lsocket = omega arith

set_base-with_base :
    (opts : Times) (id_table : List ℕ) (k : Kind) (s : Source) (i : Inode)
    → Fits opts s
    → set_base id_table k (base_bytes opts k s) i ≡ with_base opts id_table k s i
set_base-with_base opts id_table k s i f =
    let base = base_bytes opts k s in
    let mode : short_at 2 base ≡ s.mode % 2 ^ 12 = number-short (s.mode % 2 ^ 12) (omega arith) in
    let with_mode : with_type (lookup_type k) (short_at 2 base) ≡ lookup_type k + s.mode % 2 ^ 12 =
      ap (with_type (lookup_type k)) mode
      ∙ with_type-lookup_type k (s.mode % 2 ^ 12) (omega arith) in
    ap₂
      (λ a b. record i {
        uid = a;
        gid = b;
        mode = with_type (lookup_type k) (short_at 2 base);
        kind = short_at 0 base;
        time = int_at 8 base;
        inode_number = int_at 12 base;
      })
      (ap (λ n. get_or id_table n 0) (number-short s.uid f.uid))
      (ap (λ n. get_or id_table n 0) (number-short s.guid f.guid))
    ∙ ap₂
        (λ a b. record i {
          uid = get_or id_table s.uid 0;
          gid = get_or id_table s.guid 0;
          mode = a;
          kind = b;
          time = int_at 8 base;
          inode_number = int_at 12 base;
        })
        with_mode (number-short (code k) (code_small k))
    ∙ ap₂
        (λ a b. record i {
          uid = get_or id_table s.uid 0;
          gid = get_or id_table s.guid 0;
          mode = lookup_type k + s.mode % 2 ^ 12;
          kind = code k;
          time = a;
          inode_number = b;
        })
        (number-int (get_time opts s.mtime) f.time) (number-int s.inode_number f.inode_number)

-- What the rest says, for each sort of inode; a regular file also has the place of its block list.
unfoldable pub with_rest : Super → Kind → Source → Place → Inode → Inode
with_rest super dir s place i = record i {
  data_size = s.byte_size;
  offset = s.offset;
  start = s.start_block;
  xattr = s.xattr;
}
with_rest super symlink s place i = record i {
  target = s.target;
  data_size = length s.target;
  xattr = s.xattr;
}
with_rest super file s place i = record i {
  data_size = s.byte_size;
  frag_bytes = frag_bytes_of super s.fragment_index s.byte_size;
  fragment = s.fragment_index;
  offset = s.fragment_offset;
  blocks = blocks_of super s.fragment_index s.byte_size;
  start = s.start_block;
  block_start = place.blk;
  block_offset = place.off;
  sparse = not (sparse_bytes s == 0);
  xattr = s.xattr;
}
with_rest super blkdev s place i = record i { data_size = rdev s; xattr = s.xattr }
with_rest super chrdev s place i = record i { data_size = rdev s; xattr = s.xattr }
with_rest super other s place i = record i { data_size = 0; xattr = s.xattr }

module _ (r : ByteReader) where
  open r use {read, At, reads}

  read_inode_step :
      (super : Super) (id_table : List ℕ) (place p0 p1 : Place) (i : Inode) (base h : List ℕ)
      (k : Kind)
      → read place 16 ≡ got base p0
      → kind_of (short_at 0 base) ≡ some k
      → read_rest read k base p0 place ≡ some (h, p1)
      → read_inode read super id_table place i
        ≡ set_kind read super k h p1 (set_base id_table k base i)
  unfolding read_inode
  read_inode_step super id_table place p0 p1 i base h k h1 h2 h3 = rw (h1, h2, h3) refl

  -- The header is read, once up to the end of the base and once whole.
  read_rest_lem :
      (opts : Times) (k : Kind) (s : Source) (place p0 : Place) (fields rest : List ℕ)
      → length (base_bytes opts k s ++ fields) ≡ size_of k
      → At place (base_bytes opts k s ++ (fields ++ rest))
      → At p0 (fields ++ rest)
      → (next : Place) × (read_rest read k (base_bytes opts k s) p0 place
          ≡ some (base_bytes opts k s ++ fields, next))
        × At next rest
  read_rest_lem opts k s place p0 fields rest size at at0 = elim (Bool-cases (size_of k == 16)) [
    | inl t ↦
        let none_more : fields ≡ [] = nil_of_length fields (ground (arith, size)) in
        (p0, rw (t, none_more) refl, subst (λ l. At p0 (l ++ rest)) none_more at0)
    | inr f ↦
        let (p1, r1, at1) = reads place (base_bytes opts k s ++ fields) rest (omega arith) at in
        (p1, rw f (ap (λ n. bytes_of (read place n)) (sym size) ∙ ap bytes_of r1), at1)
  ]

  pub read_header :
      (opts : Times) (super : Super) (id_table : List ℕ) (k : Kind) (s : Source) (place : Place)
      (i : Inode) (fields rest : List ℕ)
      → Fits opts s
      → length (base_bytes opts k s ++ fields) ≡ size_of k
      → At place (base_bytes opts k s ++ (fields ++ rest))
      → (next : Place) × (read_inode read super id_table place i
          ≡ set_kind read super k
              (base_bytes opts k s ++ fields)
              next
              (with_base opts id_table k s i))
        × At next rest
  read_header opts super id_table k s place i fields rest f size at =
      let base = base_bytes opts k s in
      let (p0, r0, at0) = reads place base (fields ++ rest) (omega arith) at in
      let (p1, r1, at1) = read_rest_lem opts k s place p0 fields rest size at at0 in
      (
        p1,
        read_inode_step super id_table place p0 p1 i base (base ++ fields) k r0 (kind_of-code k) r1
            ∙ ap (set_kind read super k (base ++ fields) p1)
                (set_base-with_base opts id_table k s i f),
        at1,
      )
