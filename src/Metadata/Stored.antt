-- ===== src/Metadata/Stored.antt =====
-- Reading on: read_metadata of squashfs-tools/unsquashfs.c at a place of a chain of blocks.
use mathlib.Core.Path.{subst}
use squashfs_tools.Common.{
  ℕ, suc, ◌+◌, ◌-◌, ◌<◌, ◌≡◌, refl, sym, ap, true, false, some, List, [], ◌∷◌, ◌++◌, length, ◌==◌,
  ltb, leb, arith, length-append, drop-length-append, take-length-append, take-length, append_split,
  flat,
}
use squashfs_tools.Metadata.{Compressor}
use squashfs_tools.Metadata.Reader.{Image, Entry, fetch, Place, Read, got, behind}
use squashfs_tools.Metadata.Reading.{plain_loop, rest_of}

abbrev pub block_at : ℕ → List ℕ → ℕ → Entry
block_at blk b next = record { start = blk; buffer = b; next_index = next }

-- The blocks stand in the image one behind the other, from `blk` on.
abbrev pub Chain : Compressor → Image → ℕ → List (List ℕ) → Type 0
Chain c image blk [] = Unit
Chain c image blk (b ∷ bs) =
    (next : ℕ) × (fetch c image blk ≡ some (block_at blk b next)) × Chain c image next bs

-- The bytes in front of a place end within the first block.
abbrev pub Within : List ℕ → List (List ℕ) → Type 0
Within front [] = Unit
Within front (b ∷ bs) = length front < length b

-- `s` is what stands in the blocks from a place on.
pub record Stored (c : Compressor) (image : Image) (place : Place) (s : List ℕ) : Type 0 where
  pub blocks : List (List ℕ)
  pub front : List ℕ
  pub chain : Chain c image place.blk blocks
  pub bytes : flat blocks ≡ front ++ s
  pub offset : length front ≡ place.off
  pub within : Within front blocks

fetch-some :
    (c : Compressor) (image : Image) (start : ℕ) (e : Entry)
    → fetch c image start ≡ some e
    → 0 < length e.buffer
unfolding fetch
fetch-some c image start e h = ground arith

Within-nil :
    (c : Compressor) (image : Image) (blk : ℕ) (bs : List (List ℕ))
    → Chain c image blk bs
    → Within [] bs
Within-nil c image blk [] h = tt
Within-nil c image blk (b ∷ bs) (next, h, k) = fetch-some c image blk (block_at blk b next) h

pub start-Stored :
    (c : Compressor) (image : Image) (blk : ℕ) (bs : List (List ℕ)) (s : List ℕ)
    → Chain c image blk bs
    → flat bs ≡ s
    → Stored c image (record { blk = blk; off = 0 }) s
start-Stored c image blk bs s h e = record {
  blocks = bs;
  front = [];
  chain = h;
  bytes = e;
  offset = refl;
  within = Within-nil c image blk bs h;
}

-- What a round sees at a place where something is stored: `b'` of the block is behind the place.
pub record FirstBlock (c : Compressor) (image : Image) (place : Place) (s : List ℕ) : Type 0 where
  pub front : List ℕ
  pub b' : List ℕ
  pub bs : List (List ℕ)
  pub next : ℕ
  pub fetched : fetch c image place.blk ≡ some (block_at place.blk (front ++ b') next)
  pub chain : Chain c image next bs
  pub bytes : s ≡ b' ++ flat bs
  pub offset : length front ≡ place.off
  pub some_left : 0 < length b'

pub round_of :
    (c : Compressor) (image : Image) (place : Place) (s : List ℕ)
    → 0 < length s
    → Stored c image place s
    → FirstBlock c image place s
round_of c image place s p st = go st.blocks st.front st.chain st.bytes st.offset st.within
  where
    go :
        (blocks : List (List ℕ)) (front : List ℕ)
        → Chain c image place.blk blocks
        → flat blocks ≡ front ++ s
        → length front ≡ place.off
        → Within front blocks
        → FirstBlock c image place s
    go [] front h e o w = absurd (omega (arith, ap length e, length-append {0} front s))
    go (b ∷ bs) front (next, h, k) e o w =
        let (b', p1, p2) = append_split front s b (flat bs) (sym e) (omega arith) in
        record {
          front = front;
          b' = b';
          bs = bs;
          next = next;
          fetched = subst (λ x. fetch c image place.blk ≡ some (block_at place.blk x next)) p1 h;
          chain = k;
          bytes = p2;
          offset = o;
          some_left = omega (arith, ap length p1, length-append {0} front b', w);
        }

pub plain_round :
    (c : Compressor) (image : Image) (rounds : ℕ) (place : Place) (len : ℕ) (e : Entry)
    → fetch c image place.blk ≡ some e
    → place.off < length e.buffer
    → plain_loop c image (suc rounds) place len
      ≡ rest_of (λ blk n. plain_loop c image rounds (record { blk = blk; off = 0 }) n) e place len
unfolding plain_loop
plain_round c image rounds place len e h p =
    let inside : leb (length e.buffer) place.off ≡ false = ground arith in
    rw (h, inside, plain_loop) refl

-- The three ends of a round.
pub rest_more :
    (rest : ℕ → ℕ → Read) (blk next : ℕ) (front b' : List ℕ) (len : ℕ)
    → length b' < len
    → rest_of rest (block_at blk (front ++ b') next) (record { blk = blk; off = length front }) len
      ≡ behind b' (rest next (len - length b'))
rest_more rest blk next front b' len p =
    let here : length (front ++ b') - length front ≡ length b' =
      omega (arith, length-append {0} front b') in
    let t : ltb (length b') len ≡ true = ground arith in
    rw (here, t, drop-length-append front b', take-length b') refl

pub rest_end :
    (rest : ℕ → ℕ → Read) (blk next : ℕ) (front b' : List ℕ)
    → rest_of rest
        (block_at blk (front ++ b') next)
        (record { blk = blk; off = length front })
        (length b')
      ≡ got b' (record { blk = next; off = 0 })
rest_end rest blk next front b' =
    let here : length (front ++ b') - length front ≡ length b' =
      omega (arith, length-append {0} front b') in
    let f : ltb (length b') (length b') ≡ false = ground arith in
    let t : (length b' == length b') ≡ true = ground arith in
    rw (here, f, t, drop-length-append front b', take-length b') refl

pub rest_less :
    (rest : ℕ → ℕ → Read) (blk next : ℕ) (front x e : List ℕ)
    → 0 < length e
    → rest_of rest
        (block_at blk (front ++ (x ++ e)) next)
        (record { blk = blk; off = length front })
        (length x)
      ≡ got x (record { blk = blk; off = length front + length x })
rest_less rest blk next front x e p =
    let here : length (front ++ (x ++ e)) - length front ≡ length x + length e =
      omega (arith, length-append {0} front (x ++ e), length-append {0} x e) in
    let f : ltb (length x + length e) (length x) ≡ false = ground arith in
    let t : (length x + length e == length x) ≡ false = ground arith in
    rw (here, f, t, drop-length-append front (x ++ e), take-length-append x e) refl
