-- ===== src/Tables/Roundtrip.antt =====
-- The tables of ids and fragments that squashfs-tools/mksquashfs.c writes, read by
-- squashfs-tools/unsquash-4.c.
use mathlib.Core.Path.{subst}
use mathlib.Core.List.{append_assoc, append-nil}
use squashfs_tools.Common.{
  ℕ, suc, ◌+◌, ◌-◌, ◌*◌, ◌/◌, ◌^◌, ◌<◌, ◌≡◌, refl, sym, ap, ap₂, ◌∙◌, Bool, true, Option, none,
  some, List, [], ◌∷◌, ◌++◌, length, flat, get_or, ◌==◌, arith, length-append, All,
}
use squashfs_tools.Format.{metadata_size, table_bytes, table_blocks, id_size}
use squashfs_tools.Format.Fields.{ints, number-int, number-long}
use squashfs_tools.Metadata.{Compressor}
use squashfs_tools.Metadata.Blocks.{IsLossless}
use squashfs_tools.Metadata.Fetching.{plain_image, read_fs_bytes-append}
use squashfs_tools.Metadata.Reader.{read_fs_bytes}
use squashfs_tools.Tables.{longs, generic_write_table, write_id_table, Fragment, fragment_bytes}
use squashfs_tools.Tables.Load.{
  longs_of, ints_of, fragments_of, read_index, read_blocks, read_table, read_id_table,
}
use squashfs_tools.Tables.Laws.{IsPlaced, IsLeft, Blocks, write_blocks_lem, read_blocks_lem}

-- The places of the blocks are inside of the image.
placed_small :
    (c : Compressor) (at limit : ℕ) (t : List ℕ) (bs : List (List ℕ)) (list : List ℕ)
    → at + length t < limit
    → IsPlaced c at t bs list
    → All (λ p. p < limit) list
placed_small c at limit t [] [] h p = tt
placed_small c at limit t (b ∷ bs) (q ∷ list) h (e, t', here, split, good, p) =
    let size : length t ≡ length e + length t' = rw split (length-append e t') in
    (omega (arith, here), placed_small c (at + length e) limit t' bs list (omega (arith, size)) p)
placed_small c at limit t [] (q ∷ list) h p = elim p [ ]
placed_small c at limit t (b ∷ bs) [] h p = elim p [ ]

longs_of-longs :
    (ns rest : List ℕ) → All (λ n. n < 2 ^ 64) ns → longs_of (length ns) (longs ns ++ rest) ≡ ns
longs_of-longs [] rest h = refl
longs_of-longs (n ∷ ns) rest (p, h) =
    ap₂ (λ (x : ℕ) (l : List ℕ). x ∷ l) (number-long n p) (longs_of-longs ns rest h)

pub length-longs : (ns : List ℕ) → length (longs ns) ≡ length ns * 8
length-longs [] = refl
length-longs (n ∷ ns) = omega (arith, length-longs ns)

pub length-placed :
    (c : Compressor) (at : ℕ) (t : List ℕ) (bs : List (List ℕ)) (list : List ℕ)
    → IsPlaced c at t bs list
    → length list ≡ length bs
length-placed c at t [] [] p = refl
length-placed c at t (b ∷ bs) (q ∷ list) (e, t', here, split, good, p) =
    ap suc (length-placed c (at + length e) t' bs list p)
length-placed c at t [] (q ∷ list) p = elim p [ ]
length-placed c at t (b ∷ bs) [] p = elim p [ ]

read_index_lem :
    (a rest ns : List ℕ)
    → All (λ n. n < 2 ^ 64) ns
    → read_index
        (plain_image (a ++ (longs ns ++ rest)))
        (length ns)
        (length a)
        (length a + length ns * 8)
      ≡ some ns
unfolding read_index
read_index_lem a rest ns h =
    let same : (length a + length ns * 8 == length a + length ns * 8) ≡ true = ground arith in
    let bytes : read_fs_bytes (plain_image (a ++ (longs ns ++ rest))) (length a) (length ns * 8)
        ≡ some (longs ns) =
      rw (sym (length-longs ns)) (read_fs_bytes-append a (longs ns) rest) in
    let back : longs_of (length ns) (longs ns) ≡ ns =
      rw (sym (append-nil (longs ns))) (longs_of-longs ns [] h) in
    rw (same, bytes, back) refl

placed_first :
    (c : Compressor) (at : ℕ) (t : List ℕ) (bs : List (List ℕ)) (list : List ℕ)
    → 0 < length bs
    → IsPlaced c at t bs list
    → get_or list 0 0 ≡ at
placed_first c at t (b ∷ bs) (q ∷ list) h (e, t', here, split, good, p) = here
placed_first c at t [] list h p = elim h [ ]
placed_first c at t (b ∷ bs) [] h p = elim p [ ]

-- The image has less than 2 ^ 64 bytes.
abbrev pub IsWithin : Option (ℕ × List ℕ) → Type 0
IsWithin none = Unit
IsWithin (some r) = length r.1 < 2 ^ 64

all_at_first : (bs : List (List ℕ)) (n : ℕ) → n ≡ length (flat bs) → IsLeft n 0 bs
all_at_first [] n h = tt
all_at_first (b ∷ bs) n h = omega (arith, h)

pub read_table_lem :
    (c : Compressor) (rounds size count : ℕ) (image buffer image' list after : List ℕ)
    → Blocks c rounds image buffer image' list
    → length image' < 2 ^ 64
    → 0 < rounds
    → table_bytes size count ≡ length buffer
    → table_blocks size count ≡ rounds
    → read_table c
        (plain_image ((image' ++ longs list) ++ after))
        size
        count
        (length image')
        (length (image' ++ longs list))
      ≡ some (buffer, length image)
unfolding read_table
read_table_lem c rounds size count image buffer image' list after r small some_rounds bytes blocks =
    let long : length image' ≡ length image + length r.t =
      rw r.image_is (length-append image r.t) in
    let n : length list ≡ rounds =
      length-placed c (length image) r.t r.bs list r.placed ∙ r.count in
    let whole : length (image' ++ longs list) ≡ length image' + length list * 8 =
      length-append image' (longs list) ∙ ap (λ k. length image' + k) (length-longs list) in
    let index : read_index (plain_image ((image' ++ longs list) ++ after)) (length list)
          (length image') (length image' + length list * 8)
        ≡ some list =
      rw (append_assoc image' (longs list) after) (
        read_index_lem image' after list
          (placed_small c (length image) (2 ^ 64) r.t r.bs list (omega (arith, long)) r.placed)) in
    let at : (image' ++ longs list) ++ after ≡ image ++ (r.t ++ (longs list ++ after)) =
      rw r.image_is (
        ap (λ x. x ++ after) (append_assoc image r.t (longs list))
        ∙ append_assoc image (r.t ++ longs list) after
        ∙ ap (λ x. image ++ x) (append_assoc r.t (longs list) after)) in
    let read : read_blocks c (plain_image ((image' ++ longs list) ++ after)) (length buffer) rounds
          0 list
        ≡ some (flat r.bs) =
      read_blocks_lem c (length buffer) rounds 0 r.bs list image r.t (longs list ++ after)
        ((image' ++ longs list) ++ after) r.placed r.cut at
        (all_at_first r.bs (length buffer) (ap length (sym r.bytes))) (omega (arith, r.count)) in
    let first : get_or list 0 0 ≡ length image =
      placed_first c (length image) r.t r.bs list (omega (arith, r.count)) r.placed in
    let index' : read_index (plain_image ((image' ++ longs list) ++ after)) rounds (length image')
          (length (image' ++ longs list))
        ≡ some list =
      rw (whole, sym n) index in
    rw (bytes, blocks, index', read, r.bytes, first) refl

generic_table_lem :
    (c : Compressor) (u : Bool) (size count : ℕ) (buffer image after : List ℕ)
    → IsLossless c
    → 0 < length buffer
    → length buffer ≡ count * size
    → IsWithin (generic_write_table c u buffer [] image)
    → (start : ℕ) × (whole : List ℕ) × (generic_write_table c u buffer [] image
        ≡ some (start, whole))
      × (read_table c (plain_image (whole ++ after)) size count start (length whole)
          ≡ some (buffer, length image))
unfolding generic_write_table table_blocks
generic_table_lem c u size count buffer image after l some_data n w =
    let rounds = (length buffer + metadata_size - 1) / metadata_size in
    let (image', list, h, r) = write_blocks_lem c u rounds buffer image l refl in
    let done : generic_write_table c u buffer [] image
        ≡ some (length image', image' ++ longs list) =
      rw h refl in
    let within : length (image' ++ longs list) < 2 ^ 64 = subst IsWithin done w in
    (
      length image',
      image' ++ longs list,
      done,
      read_table_lem c rounds size count image buffer image' list after r
          (omega (arith, length-append {0} image' (longs list))) (omega arith) (sym n)
          (ap (λ k. (k + metadata_size - 1) / metadata_size) (sym n)),
    )

pub ints_of-ints : (ns : List ℕ) → All (λ n. n < 2 ^ 32) ns → ints_of (length ns) (ints ns) ≡ ns
ints_of-ints [] h = refl
ints_of-ints (n ∷ ns) (p, h) =
    ap₂ (λ (x : ℕ) (l : List ℕ). x ∷ l) (number-int n p) (ints_of-ints ns h)

pub length-ints : (ns : List ℕ) → length (ints ns) ≡ length ns * 4
length-ints [] = refl
length-ints (n ∷ ns) = omega (arith, length-ints ns)

pub write_id_table-read_id_table :
    (c : Compressor) (uncompressed : Bool) (ids image after : List ℕ)
    → IsLossless c
    → All (λ id. id < 2 ^ 32) ids
    → 0 < length ids
    → IsWithin (write_id_table c uncompressed ids image)
    → (start : ℕ) × (whole : List ℕ) × (write_id_table c uncompressed ids image
        ≡ some (start, whole))
      × (read_id_table c (plain_image (whole ++ after)) (length ids) start (length whole)
          ≡ some (ids, length image))
unfolding write_id_table read_id_table
write_id_table-read_id_table c u ids image after l p n w =
    let (start, whole, h, r) =
      generic_table_lem c u id_size (length ids) (ints ids) image after l
        (omega (arith, length-ints ids)) (length-ints ids) w in
    (start, whole, h, rw (r, ints_of-ints ids p) refl)

-- The fields of an entry fit theirs on disk.
abbrev pub IsFragment : Fragment → Type 0
IsFragment f = (f.start_block < 2 ^ 64) × (f.size < 2 ^ 32) × (f.unused < 2 ^ 32)

pub fragments_of-fragment_bytes :
    (fs : List Fragment) → All IsFragment fs → fragments_of (length fs) (fragment_bytes fs) ≡ fs
fragments_of-fragment_bytes [] h = refl
fragments_of-fragment_bytes (f ∷ fs) ((p, q, r), h) =
    ap₂ (λ (x : Fragment) (l : List Fragment). x ∷ l)
      (rw (number-long f.start_block p, number-int f.size q, number-int f.unused r) refl)
      (fragments_of-fragment_bytes fs h)

pub length-fragment_bytes : (fs : List Fragment) → length (fragment_bytes fs) ≡ length fs * 16
length-fragment_bytes [] = refl
length-fragment_bytes (f ∷ fs) = omega (arith, length-fragment_bytes fs)
