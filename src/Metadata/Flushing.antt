-- ===== src/Metadata/Flushing.antt =====
-- How write_inodes and write_directories of squashfs-tools/mksquashfs.c put down the rest of a table.
use mathlib.Core.List.{append_assoc, append-nil}
use Prim.Native.Nat.{min}
use squashfs_tools.Common.{
  ℕ, zero, suc, ◌+◌, ◌*◌, ◌/◌, ◌≤◌, ◌<◌, ◌≡◌, refl, sym, ap, ◌∙◌, inl, inr, Bool, some, List, [],
  ◌∷◌, ◌++◌, length, take, drop, ◌==◌, leb, arith, length-drop, take-append-drop, Bool-cases, flat,
  flat-append,
}
use squashfs_tools.Format.{metadata_size, make_inode}
use squashfs_tools.Metadata.{
  Compressor, Writer, put_block, put_rest, get_inode, write_table, grow_cache,
}
use squashfs_tools.Metadata.Blocks.{IsLossless, put_block_lem}
use squashfs_tools.Metadata.Filling.{IsPacked, IsPacked-append, IsCut, IsCut-append, Runs}
use squashfs_tools.Metadata.Loops.{
  put_full_block, put_rest_stop, put_rest_step, put_rest_empty, put_full_lem,
}

-- All of the cache went to the table.
pub record Flushed (c : Compressor) (w w' : Writer) : Type 0 where
  pub blocks : List (List ℕ)
  pub bytes : List ℕ
  pub table : w'.table ≡ w.table ++ bytes
  pub packed : IsPacked c bytes blocks
  pub cut : IsCut blocks
  pub kept : w.cache ≡ flat blocks

Flushed-trans : (c : Compressor) (w v u : Writer) → Runs c w [] v → Flushed c v u → Flushed c w u
Flushed-trans c w v u h k = record {
  blocks = h.blocks ++ k.blocks;
  bytes = h.bytes ++ k.bytes;
  table = rw (k.table, h.table) (append_assoc w.table h.bytes k.bytes);
  packed = IsPacked-append c h.bytes k.bytes h.blocks k.blocks h.packed k.packed;
  cut = IsCut-append h.blocks k.blocks h.full k.cut;
  kept =
      sym (append-nil w.cache)
      ∙ h.kept
      ∙ ap (λ l. flat h.blocks ++ l) k.kept
      ∙ sym (flat-append h.blocks k.blocks);
}

pub nil_of_length : (xs : List ℕ) → length xs ≡ 0 → xs ≡ []
nil_of_length [] h = refl
nil_of_length (x ∷ xs) h = absurd (omega arith)

drop_all : (n : ℕ) (xs : List ℕ) → length xs ≤ n → drop n xs ≡ []
drop_all n xs h = nil_of_length (drop n xs) (omega (arith, length-drop {0} n xs))

-- The last block, of what is less than a full one.
put_last_block :
    (c : Compressor) (noi : Bool) (w : Writer)
    → IsLossless c
    → 0 < length w.cache
    → length w.cache ≤ metadata_size
    → (w' : Writer) × (put_block c noi (length w.cache) w ≡ some w')
      × (w'.cache ≡ [])
      × Flushed c w w'
put_last_block c noi w l p q =
    let (w', e, h, table, cache, good) =
      put_block_lem c noi (length w.cache) w l p q (omega arith) in
    let gone : drop (length w.cache) w.cache ≡ [] =
      drop_all (length w.cache) w.cache (omega arith) in
    (
      w',
      h,
      cache ∙ gone,
      record {
        blocks = take (length w.cache) w.cache ∷ [];
        bytes = e;
        table = table;
        packed = (e, [], sym (append-nil e), good, refl);
        cut = tt;
        kept =
            sym (take-append-drop (length w.cache) w.cache)
            ∙ ap (λ l. take (length w.cache) w.cache ++ l) gone;
      },
    )

-- The loop of write_inodes empties the cache.
pub put_rest_lem :
    (c : Compressor) (noi : Bool) (rounds : ℕ) (w : Writer)
    → IsLossless c
    → length w.cache ≤ metadata_size * rounds
    → (w' : Writer) × (put_rest c noi rounds w ≡ some w') × Flushed c w w'
unfolding put_rest
put_rest_lem c noi zero w l p = (
  w,
  refl,
  record {
    blocks = [];
    bytes = [];
    table = sym (append-nil w.table);
    packed = refl;
    cut = tt;
    kept = nil_of_length w.cache (omega arith);
  },
)
put_rest_lem c noi (suc rounds) w l p = elim (Bool-cases (length w.cache == 0)) [
  | inl t ↦ (
    w,
    put_rest_stop c noi rounds w t,
    record {
      blocks = [];
      bytes = [];
      table = sym (append-nil w.table);
      packed = refl;
      cut = tt;
      kept = nil_of_length w.cache (ground arith);
    },
  )
  | inr f ↦ elim (Bool-cases (leb metadata_size (length w.cache))) [
    | inl full ↦
        let m : min metadata_size (length w.cache) ≡ metadata_size = ground arith in
        let (v, h, n, r) = put_full_block c noi w l (ground arith) in
        let (u, h', k) = put_rest_lem c noi rounds v l (omega (arith, n)) in
        (u, put_rest_step c noi rounds metadata_size w v f m h ∙ h', Flushed-trans c w v u r k)
    | inr part ↦
        let m : min metadata_size (length w.cache) ≡ length w.cache = ground arith in
        let (v, h, gone, k) = put_last_block c noi w l (ground arith) (ground arith) in
        (
          v,
          put_rest_step c noi rounds (length w.cache) w v f m h
              ∙ put_rest_empty c noi rounds v gone,
          k,
        )
  ]
]

-- write_inodes, write_directories.
pub write_table_lem :
    (c : Compressor) (noi : Bool) (w : Writer)
    → IsLossless c
    → (w' : Writer) × (write_table c noi w ≡ some w'.table) × Flushed c w w'
unfolding write_table
write_table_lem c noi w l =
    let (w', h, k) = put_rest_lem c noi (length w.cache / metadata_size + 1) w l (omega arith) in
    (w', rw h refl, k)

-- get_inode: the place that it gives is that of what is in front of the new bytes.
pub record Got (c : Compressor) (w : Writer) (bytes : List ℕ) (w' : Writer) (place : ℕ)
    : Type 0 where
  pub at : Writer
  pub before : Runs c w [] at
  pub after : Runs c at bytes w'
  pub short : length at.cache < metadata_size
  pub place_is : place ≡ make_inode (length at.table) (length at.cache)

pub get_inode_lem :
    (c : Compressor) (noi : Bool) (bytes : List ℕ) (w : Writer)
    → IsLossless c
    → (w' : Writer) × (place : ℕ) × (get_inode c noi bytes w ≡ some (w', place))
      × Got c w bytes w' place
unfolding get_inode
get_inode_lem c noi bytes w l =
    let (v, h, n, r) = put_full_lem c noi (length w.cache / metadata_size) w l (omega arith) in
    (
      record v { cache = v.cache ++ bytes; cache_size = grow_cache (length bytes) v },
      make_inode (length v.table) (length v.cache),
      rw h refl,
      record {
        at = v;
        before = r;
        after = record {
          blocks = [];
          bytes = [];
          table = sym (append-nil v.table);
          packed = refl;
          full = tt;
          kept = refl;
        };
        short = n;
        place_is = refl;
      },
    )
