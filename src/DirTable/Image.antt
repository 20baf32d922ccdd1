-- ===== src/DirTable/Image.antt =====
-- A directory from add_dir, through write_dir and the blocks of the directory table of
-- squashfs-tools/mksquashfs.c, to squashfs_opendir of squashfs-tools/unsquash-4.c.
use mathlib.Core.Path.{subst}
use mathlib.Core.List.{append_assoc, append-nil}
use squashfs_tools.Common.{
  ℕ, zero, suc, ◌+◌, ◌-◌, ◌*◌, ◌/◌, ◌%◌, ◌^◌, ◌≤◌, ◌<◌, ◌≡◌, refl, sym, inl, inr, Bool, true, false,
  some, List, [], ◌∷◌, ◌++◌, map, length, arith, ltb, length-append, Bool-cases, All,
}
use squashfs_tools.Directory.{check_name, check_directory}
use squashfs_tools.Directory.Sort.{DirEnt}
use squashfs_tools.DirTable.{
  Directory, Index, Written, Added, init_dir, add_dir, add_all, put_header, mark_index, put_dir,
  cache_dir, write_dir, grow_directories,
}
use squashfs_tools.DirTable.Adding.{Holds, entry_of, add_dir-Holds}
use squashfs_tools.Format.{metadata_size}
use squashfs_tools.Metadata.{Compressor, Writer, put_block}
use squashfs_tools.Metadata.Blocks.{IsLossless}
use squashfs_tools.Metadata.Filling.{Runs, Runs-refl, Runs-trans}
use squashfs_tools.Metadata.Loops.{put_full_block}

put_dir_stop :
    (c : Compressor) (noi : Bool) (rounds limit : ℕ) (index : List Index) (w : Writer)
    → ltb (length w.cache) metadata_size ≡ true
    → (done : List Index) × (put_dir c noi (suc rounds) limit index w ≡ some (done, w))
unfolding put_dir
put_dir_stop c noi rounds limit index w t = (
  (mark_index limit (length w.table % 2 ^ 32) index).0
      ++ (mark_index limit (length w.table % 2 ^ 32) index).1,
  rw (t, put_dir) refl,
)

-- `v`, with directory_size as it is when a block of `w` has been put.
abbrev grown : Writer → Writer → Writer
grown w v = record v { table_size = grow_directories w }

grown-Runs :
    (c : Compressor) (w v : Writer) (added : List ℕ) → Runs c w added v → Runs c w added (grown w v)
grown-Runs c w v added r = record {
  blocks = r.blocks;
  bytes = r.bytes;
  table = r.table;
  packed = r.packed;
  full = r.full;
  kept = r.kept;
}

put_dir_step :
    (c : Compressor) (noi : Bool) (rounds limit : ℕ) (index : List Index) (w v u : Writer)
    (others : List Index)
    → ltb (length w.cache) metadata_size ≡ false
    → put_block c noi metadata_size w ≡ some v
    → put_dir c noi rounds
        (limit + metadata_size)
        (mark_index limit (length w.table % 2 ^ 32) index).1
        (grown w v)
      ≡ some (others, u)
    → (done : List Index) × (put_dir c noi (suc rounds) limit index w ≡ some (done, u))
unfolding put_dir
put_dir_step c noi rounds limit index w v u others f h k =
    ((mark_index limit (length w.table % 2 ^ 32) index).0 ++ others, rw (f, h, k, put_dir) refl)

-- write_dir's loop puts the full blocks of the cache, and ends.
put_dir_lem :
    (c : Compressor) (noi : Bool) (rounds limit : ℕ) (index : List Index) (w : Writer)
    → IsLossless c
    → length w.cache < metadata_size * rounds
    → (done : List Index) × (w' : Writer) × (put_dir c noi rounds limit index w ≡ some (done, w'))
      × Runs c w [] w'
      × (length w'.cache < metadata_size)
unfolding mark_index
put_dir_lem c noi zero limit index w l p = absurd (omega arith)
put_dir_lem c noi (suc rounds) limit index w l p =
    elim (Bool-cases (ltb (length w.cache) metadata_size)) [
      | inl t ↦
          let (done, h) = put_dir_stop c noi rounds limit index w t in
          (done, w, h, Runs-refl c w, ground arith)
      | inr f ↦
          let big : metadata_size ≤ length w.cache = ground arith in
          let (v, h, n, r) = put_full_block c noi w l big in
          let (others, u, h', r', s) =
            put_dir_lem c noi rounds (limit + metadata_size)
              (mark_index limit (length w.table % 2 ^ 32) index).1 (grown w v) l
              (omega (arith, n)) in
          let (done, k) = put_dir_step c noi rounds limit index w v u others f h h' in
          (done, u, k, Runs-trans c w [] (grown w v) [] u (grown-Runs c w v [] r) r', s)
    ]

-- write_dir: what is behind the cache, and the place of the directory.
pub record Wrote (c : Compressor) (dir : Directory) (w : Writer) (written : Written) (w' : Writer)
    : Type 0 where
  pub runs : Runs c w (put_header dir) w'
  pub short : length w'.cache < metadata_size
  pub byte_size : written.byte_size ≡ length dir.buff + 3
  pub start_block : written.start_block ≡ length w.table % 2 ^ 32
  pub offset : written.offset ≡ length w.cache

pub write_dir_lem :
    (c : Compressor) (noi : Bool) (dir : Directory) (w : Writer)
    → IsLossless c
    → length w.cache < metadata_size
    → length (put_header dir) ≡ length dir.buff
    → (written : Written) × (w' : Writer) × (write_dir c noi dir w ≡ some (written, w'))
      × Wrote c dir w written w'
unfolding write_dir
write_dir_lem c noi dir w l p q =
    let start = cache_dir dir w in
    let cached : Runs c w (put_header dir) start = record {
      blocks = [];
      bytes = [];
      table = sym (append-nil w.table);
      packed = refl;
      full = tt;
      kept = refl;
    } in
    let (done, v, h, r, s) =
      put_dir_lem c noi ((length w.cache + length dir.buff) / metadata_size + 1)
        (metadata_size - length w.cache) dir.index start l
        (omega (arith, length-append {0} w.cache (put_header dir), q)) in
    (
      record {
        byte_size = length dir.buff + 3;
        start_block = length w.table % 2 ^ 32;
        offset = length w.cache;
        index = done;
      },
      v,
      rw h refl,
      record {
        runs =
            subst (λ x. Runs c w x v) (append-nil (put_header dir))
              (Runs-trans c w (put_header dir) start [] v cached r);
        short = s;
        byte_size = refl;
        start_block = refl;
        offset = refl;
      },
    )

abbrev pub entries_of : List Added → List DirEnt
entries_of = map (λ (a : Added). entry_of a.inode a.name a.kind)

-- What is asked of a directory's entries: names that check_name accepts, in the order of strcmp, and
-- not too many bytes for an int.
pub record IsListing (entries : List Added) : Type 0 where
  pub some_names : All (λ (a : Added). 0 < length a.name) entries
  pub kinds : All (λ (a : Added). a.kind < 2 ^ 16) entries
  pub named : All (λ (e : DirEnt). check_name e.name (length e.name) ≡ true) (entries_of entries)
  pub in_order : check_directory (map (λ (e : DirEnt). e.name) (entries_of entries)) ≡ true
  pub fits : length (add_all entries (init_dir 0 0)).buff < 2 ^ 31

pub add_all-Holds :
    (entries : List Added) (dir : Directory) (es : List DirEnt)
    → All (λ (a : Added). 0 < length a.name) entries
    → All (λ (a : Added). a.kind < 2 ^ 16) entries
    → Holds dir es
    → Holds (add_all entries dir) (es ++ entries_of entries)
unfolding add_all
add_all-Holds [] dir es p q h = subst (Holds dir) (sym (append-nil es)) h
add_all-Holds (a ∷ entries) dir es (p, ps) (q, qs) h =
    let e = entry_of a.inode a.name a.kind in
    let next = add_dir a.inode a.inode_number a.name a.kind dir in
    subst (Holds (add_all entries next)) (append_assoc es (e ∷ []) (entries_of entries)) (
      add_all-Holds entries next (es ++ e ∷ []) ps qs
        (add_dir-Holds a.inode a.inode_number a.kind a.name dir es p q h))
