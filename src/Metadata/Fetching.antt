-- ===== src/Metadata/Fetching.antt =====
-- read_block of squashfs-tools/unsquashfs.c on what mksquashfs.c wrote for a block of metadata.
use mathlib.Core.Path.{subst}
use mathlib.Core.List.{append_assoc}
use squashfs_tools.Common.{
  ℕ, ◌+◌, ◌≡◌, ◌⊎◌, refl, sym, ap₂, ◌∙◌, inl, inr, true, false, some, List, [], ◌∷◌, ◌++◌, length,
  ◌==◌, ltb, leb, arith, length-append, drop-length-append, take-length-append,
}
use squashfs_tools.Format.{metadata_size}
use squashfs_tools.Metadata.{Compressor, short_bytes}
use squashfs_tools.Metadata.Reader.{Image, read_block, read_fs_bytes, fetch, size_word}
use squashfs_tools.Metadata.Blocks.{Encodes}

abbrev pub plain_image : List ℕ → Image
plain_image bytes = record { bytes = bytes; swap = false; check_data = false }

pub read_fs_bytes-append :
    (a b r : List ℕ) → read_fs_bytes (plain_image (a ++ (b ++ r))) (length a) (length b) ≡ some b
unfolding read_fs_bytes
read_fs_bytes-append a [] r = refl
read_fs_bytes-append a (x ∷ b) r =
    let room : leb (length a + length (x ∷ b)) (length (a ++ ((x ∷ b) ++ r))) ≡ true =
      ground (arith, length-append a ((x ∷ b) ++ r), length-append (x ∷ b) r) in
    let full : (length (x ∷ b) == 0) ≡ false = ground arith in
    rw (full, room, drop-length-append a ((x ∷ b) ++ r), take-length-append (x ∷ b) r) refl

-- The two parts of a block that stands behind `a`: its size word, and its data.
record Parts (c : Compressor) (a e r : List ℕ) (word : ℕ) (body : List ℕ) : Type 0 where
  word_is : size_word false (short_bytes word) ≡ word
  first : read_fs_bytes (plain_image (a ++ (e ++ r))) (length a) 2 ≡ some (short_bytes word)
  second : read_fs_bytes (plain_image (a ++ (e ++ r))) (length a + 2) (length body) ≡ some body
  behind : length a + 2 + length body ≡ length a + length e

split_block : (c : Compressor) (s e a r : List ℕ) (h : Encodes c s e) → Parts c a e r h.word h.body
split_block c s e a r h =
    let split : a ++ (e ++ r) ≡ a ++ (short_bytes h.word ++ (h.body ++ r)) = rw h.bytes refl in
    let split' : a ++ (e ++ r) ≡ (a ++ short_bytes h.word) ++ (h.body ++ r) =
      split ∙ sym (append_assoc a (short_bytes h.word) (h.body ++ r)) in
    record {
      word_is = omega (arith, h.small);
      first = rw split (read_fs_bytes-append a (short_bytes h.word) (h.body ++ r));
      second =
          subst
            (λ (l : List ℕ × ℕ). read_fs_bytes (plain_image l.0) l.1 (length h.body) ≡ some h.body)
            (ap₂ (λ (l : List ℕ) (n : ℕ). (l, n)) (sym split')
              (length-append a (short_bytes h.word)))
            (read_fs_bytes-append (a ++ short_bytes h.word) h.body r);
      behind = rw h.bytes (omega arith);
    }

-- The block that stands behind `a` is read, with its size given or not.
pub read_block-Encodes :
    (c : Compressor) (s e a r : List ℕ) (expected : ℕ)
    → Encodes c s e
    → (expected ≡ 0) ⊎ (expected ≡ length s)
    → read_block c (plain_image (a ++ (e ++ r))) (length a) expected ≡ some (s, length a + length e)
unfolding read_block
read_block-Encodes c s e a r expected h (inl zero_is) =
    let p = split_block c s e a r h in
    let fits : ltb metadata_size (length h.body) ≡ false = ground (arith, h.fits, h.block_fits) in
    rw
      (
        zero_is,
        p.first,
        p.word_is,
        h.size,
        fits,
        p.second,
        h.unpacked metadata_size h.block_fits,
        p.behind,
      )
      refl
read_block-Encodes c s e a r expected h (inr same) =
    let p = split_block c s e a r h in
    let given : (length s == 0) ≡ false = ground (arith, h.some_data) in
    let room : ltb metadata_size (length s) ≡ false = ground (arith, h.block_fits) in
    let fits : ltb (length s) (length h.body) ≡ false = ground (arith, h.fits) in
    let whole : (length s == length s) ≡ true = ground arith in
    rw
      (
        same,
        given,
        room,
        p.first,
        p.word_is,
        h.size,
        fits,
        p.second,
        h.unpacked (length s) (omega arith),
        whole,
        p.behind,
      )
      refl

-- The next block is looked for behind it.
pub fetch-Encodes :
    (c : Compressor) (s e a r : List ℕ)
    → Encodes c s e
    → fetch c (plain_image (a ++ (e ++ r))) (length a)
      ≡ some (record { start = length a; buffer = s; next_index = length a + length e })
unfolding fetch
fetch-Encodes c s e a r h =
    let full : (length s == 0) ≡ false = ground (arith, h.some_data) in
    rw (read_block-Encodes c s e a r 0 h (inl refl), full) refl
