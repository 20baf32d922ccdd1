-- ===== src/Tables/Laws.antt =====
-- What generic_write_table of squashfs-tools/mksquashfs.c wrote, the readers of
-- squashfs-tools/unsquash-4.c read back.
use mathlib.Core.Path.{subst}
use mathlib.Core.List.{append_assoc, append-nil}
use Prim.Native.Nat.{min}
use squashfs_tools.Common.{
  ℕ, zero, suc, ◌+◌, ◌-◌, ◌*◌, ◌/◌, ◌%◌, ◌^◌, ◌≤◌, ◌<◌, ◌≡◌, ◌⊎◌, refl, sym, ap, ◌∙◌, inl, inr,
  Bool, false, some, List, [], ◌∷◌, ◌++◌, length, take, drop, flat, ◌==◌, leb, arith, length-append,
  length-take, length-drop, take-append-drop, take-length, Bool-cases,
}
use squashfs_tools.Format.{metadata_size}
use squashfs_tools.Metadata.{Compressor, mangle}
use squashfs_tools.Metadata.Blocks.{IsLossless, Encodes, mangle_lem}
use squashfs_tools.Metadata.Fetching.{plain_image, read_block-Encodes}
use squashfs_tools.Metadata.Filling.{IsCut, IsCut-cons, IsFull}
use squashfs_tools.Metadata.Flushing.{nil_of_length}
use squashfs_tools.Metadata.Reader.{read_block}
use squashfs_tools.Tables.{block_bytes, write_blocks}
use squashfs_tools.Tables.Load.{expected_at, read_blocks}

-- The blocks `bs` stand one behind the other from `at` on, in the bytes `t`, and the list says where.
abbrev pub IsPlaced : Compressor → ℕ → List ℕ → List (List ℕ) → List ℕ → Type 0
IsPlaced c at t [] [] = t ≡ []
IsPlaced c at t (b ∷ bs) (p ∷ ps) =
    (e : List ℕ) × (t' : List ℕ) × (p ≡ at)
    × (t ≡ e ++ t')
    × Encodes c b e
    × IsPlaced c (at + length e) t' bs ps
IsPlaced c at t _ _ = ⊥

-- The loop over the blocks: what is written, and how `buffer` is cut.
pub record Blocks (c : Compressor) (rounds : ℕ) (image buffer image' list : List ℕ) : Type 0 where
  pub t : List ℕ
  pub bs : List (List ℕ)
  pub image_is : image' ≡ image ++ t
  pub placed : IsPlaced c (length image) t bs list
  pub cut : IsCut bs
  pub count : length bs ≡ rounds
  pub bytes : flat bs ≡ buffer

one_block :
    (c : Compressor) (u : Bool) (b : List ℕ)
    → IsLossless c
    → 0 < length b
    → length b ≤ metadata_size
    → (m : List ℕ × ℕ) × (mangle c 15 metadata_size u b ≡ some m) × Encodes c b (block_bytes m)
one_block c u b l p q =
    let (m, h, (good, small, size)) = mangle_lem c u b l p q in
    let word : m.1 % 2 ^ 16 ≡ m.1 = omega arith in
    (m, h, subst (Encodes c b) (sym (rw (word, size, take-length m.0) refl)) good)

first_block :
    (b : List ℕ) (bs : List (List ℕ)) → IsFull b ⊎ (length bs ≡ 0) → IsCut bs → IsCut (b ∷ bs)
first_block b bs (inl full) k = IsCut-cons b bs full k
first_block b [] (inr h) k = tt
first_block b (b' ∷ bs) (inr h) k = absurd (omega arith)

-- A round in front of the others.
first_round :
    (c : Compressor) (rounds : ℕ) (b e rest image buffer image' list : List ℕ)
    → Encodes c b e
    → b ++ rest ≡ buffer
    → IsFull b ⊎ (rounds ≡ 0)
    → Blocks c rounds (image ++ e) rest image' list
    → Blocks c (suc rounds) image buffer image' (length image ∷ list)
first_round c rounds b e rest image buffer image' list good split full r = record {
  t = e ++ r.t;
  bs = b ∷ r.bs;
  image_is = r.image_is ∙ append_assoc image e r.t;
  placed = (
    e,
    r.t,
    refl,
    refl,
    good,
    subst (λ k. IsPlaced c k r.t r.bs list) (length-append image e) r.placed,
  );
  cut = first_block b r.bs (elim full [ inl f ↦ inl f | inr z ↦ inr (r.count ∙ z) ]) r.cut;
  count = ap suc r.count;
  bytes = ap (λ x. b ++ x) r.bytes ∙ split;
}

whole_or_last :
    (buffer : List ℕ) (rounds : ℕ)
    → suc rounds ≡ (length buffer + metadata_size - 1) / metadata_size
    → IsFull (take (min metadata_size (length buffer)) buffer) ⊎ (rounds ≡ 0)
whole_or_last buffer rounds n = elim (Bool-cases (leb metadata_size (length buffer))) [
  | inl t ↦ inl (ground (arith, length-take {0} (min metadata_size (length buffer)) buffer))
  | inr f ↦ inr (ground arith)
]

pub write_blocks_lem :
    (c : Compressor) (u : Bool) (rounds : ℕ) (buffer image : List ℕ)
    → IsLossless c
    → rounds ≡ (length buffer + metadata_size - 1) / metadata_size
    → (image' : List ℕ) × (list : List ℕ) × (write_blocks c u rounds buffer image
        ≡ some (image', list))
      × Blocks c rounds image buffer image' list
unfolding write_blocks
write_blocks_lem c u zero buffer image l n = (
  image,
  [],
  refl,
  record {
    t = [];
    bs = [];
    image_is = sym (append-nil image);
    placed = refl;
    cut = tt;
    count = refl;
    bytes = sym (nil_of_length buffer (omega arith));
  },
)
write_blocks_lem c u (suc rounds) buffer image l n =
    let avail = min metadata_size (length buffer) in
    let size : length (take avail buffer) ≡ avail = omega (arith, length-take {0} avail buffer) in
    let (m, h, good) =
      one_block c u (take avail buffer) l (omega (arith, size)) (omega (arith, size)) in
    let (image', list, h', r) =
      write_blocks_lem c u rounds (drop avail buffer) (image ++ block_bytes m) l
        (omega (arith, length-drop {0} avail buffer)) in
    (
      image',
      length image ∷ list,
      rw (h, h') refl,
      first_round c rounds (take avail buffer) (block_bytes m) (drop avail buffer) image buffer
          image' list good (take-append-drop avail buffer) (whole_or_last buffer rounds n) r,
    )

-- `expected` of a round is the size of its block, or 0.
expected_first :
    (bytes indexes i : ℕ) (b : List ℕ) (bs : List (List ℕ))
    → length b ≤ metadata_size
    → IsCut (b ∷ bs)
    → bytes ≡ i * metadata_size + length (flat (b ∷ bs))
    → indexes ≡ i + length (b ∷ bs)
    → (expected_at bytes indexes i ≡ 0) ⊎ (expected_at bytes indexes i ≡ length b)
expected_first bytes indexes i b [] small cut n m =
    let total : length (flat (b ∷ [])) ≡ length b = omega (arith, length-append {0} b []) in
    elim (Bool-cases (length b == metadata_size)) [
      | inl t ↦ inl (ground (arith, total))
      | inr f ↦ inr (ground (arith, total))
    ]
expected_first bytes indexes i b (b' ∷ bs) small (full, cut) n m = inr (ground (arith, full))

-- What is left of `bytes` from the block `i` on, when there is one.
abbrev pub IsLeft : ℕ → ℕ → List (List ℕ) → Type 0
IsLeft bytes i [] = Unit
IsLeft bytes i (b ∷ bs) = bytes ≡ i * metadata_size + length (flat (b ∷ bs))

behind_first :
    (bytes i : ℕ) (b : List ℕ) (bs : List (List ℕ))
    → IsCut (b ∷ bs)
    → IsLeft bytes i (b ∷ bs)
    → IsLeft bytes (i + 1) bs
behind_first bytes i b [] cut n = tt
behind_first bytes i b (b' ∷ bs) (full, cut) n =
    omega (arith, full, length-append {0} b (flat (b' ∷ bs)))

all_but_first : (b : List ℕ) (bs : List (List ℕ)) → IsCut (b ∷ bs) → IsCut bs
all_but_first b [] cut = tt
all_but_first b (b' ∷ bs) (full, cut) = cut

pub read_blocks_lem :
    (c : Compressor) (bytes indexes i : ℕ) (bs : List (List ℕ)) (list before t after img : List ℕ)
    → IsPlaced c (length before) t bs list
    → IsCut bs
    → img ≡ before ++ (t ++ after)
    → IsLeft bytes i bs
    → indexes ≡ i + length bs
    → read_blocks c (plain_image img) bytes indexes i list ≡ some (flat bs)
unfolding read_blocks
read_blocks_lem c bytes indexes i [] [] before t after img p cut at n m = refl
read_blocks_lem c bytes indexes i (b ∷ bs) (q ∷ list) before t after img
      (e, t', here, split, good, p) cut at n m =
    let img_is : img ≡ before ++ (e ++ (t' ++ after)) =
      at ∙ ap (λ x. before ++ x) (ap (λ x. x ++ after) split ∙ append_assoc e t' after) in
    let first : read_block c (plain_image img) q (expected_at bytes indexes i)
        ≡ some (b, length before + length e) =
      rw (img_is, here)
        (read_block-Encodes c b e before (t' ++ after) (expected_at bytes indexes i) good
          (expected_first bytes indexes i b bs good.block_fits cut n m)) in
    let some_data : (length b == 0) ≡ false = ground (arith, good.some_data) in
    let behind : read_blocks c (plain_image img) bytes indexes (i + 1) list ≡ some (flat bs) =
      read_blocks_lem c bytes indexes (i + 1) bs list (before ++ e) t' after img
        (subst (λ k. IsPlaced c k t' bs list) (sym (length-append before e)) p)
        (all_but_first b bs cut) (img_is ∙ sym (append_assoc before e (t' ++ after)))
        (behind_first bytes i b bs cut n) (omega (arith, m)) in
    rw (first, some_data, behind) refl
read_blocks_lem c bytes indexes i [] (q ∷ list) before t after img p cut at n m = elim p [ ]
read_blocks_lem c bytes indexes i (b ∷ bs) [] before t after img p cut at n m = elim p [ ]
