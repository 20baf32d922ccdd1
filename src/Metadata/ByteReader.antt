-- ===== src/Metadata/ByteReader.antt =====
-- read_metadata of squashfs-tools/unsquashfs.c at a place of a chain of blocks, and what its callers rely
-- on.
use mathlib.Core.Path.{subst}
use mathlib.Core.List.{append_assoc, append-nil}
use squashfs_tools.Common.{
  ℕ, zero, suc, ◌+◌, ◌-◌, ◌<◌, ◌≡◌, sym, ap, ◌∙◌, inl, inr, some, List, [], ◌∷◌, ◌++◌, length, ◌==◌,
  ltb, arith, length-append, append_split, flat, Bool-cases,
}
use squashfs_tools.Metadata.{Compressor}
use squashfs_tools.Metadata.Flushing.{nil_of_length}
use squashfs_tools.Metadata.Reader.{Image, fetch, Place, Read, got, behind}
use squashfs_tools.Metadata.Reading.{plain_loop, plain_read, rest_of}
use squashfs_tools.Metadata.Stored.{
  block_at, Chain, Stored, start-Stored, round_of, plain_round, rest_more, rest_end, rest_less,
}

-- What a reading gives.
abbrev pub Reads : Compressor → Image → Read → List ℕ → List ℕ → Type 0
Reads c image r x y = (place : Place) × (r ≡ got x place) × Stored c image place y

round-Reads :
    (c : Compressor) (image : Image) (rest : ℕ → ℕ → Read) (blk : ℕ) (x y : List ℕ)
    (front b' : List ℕ) (bs : List (List ℕ)) (next : ℕ)
    → fetch c image blk ≡ some (block_at blk (front ++ b') next)
    → Chain c image next bs
    → x ++ y ≡ b' ++ flat bs
    → ((x' : List ℕ)
        → length b' < length x
        → x ≡ b' ++ x'
        → Stored c image (record { blk = next; off = 0 }) (x' ++ y)
        → Reads c image (rest next (length x')) x' y)
    → Reads c image
        (rest_of rest
          (block_at blk (front ++ b') next)
          (record { blk = blk; off = length front })
          (length x))
        x
        y
round-Reads c image rest blk x y front b' bs next h k e ih =
    elim (Bool-cases (ltb (length b') (length x))) [
      | inl t ↦
          let less : length b' < length x = ground arith in
          let (x', p, q) = append_split b' (flat bs) x y (sym e) (omega arith) in
          let (place, r, s) = ih x' less p (start-Stored c image next bs (x' ++ y) k q) in
          let len : length x - length b' ≡ length x' =
            omega (arith, ap length p, length-append {0} b' x') in
          (
            place,
            rest_more rest blk next front b' (length x) less
                ∙ ap (λ n. behind b' (rest next n)) len
                ∙ ap (behind b') r
                ∙ ap (λ l. got l place) (sym p),
            s,
          )
      | inr f ↦
          let (z, p, q) = append_split x y b' (flat bs) e (ground arith) in
          elim (Bool-cases (length z == 0)) [
            | inl done ↦
                let none_left : z ≡ [] = nil_of_length z (ground arith) in
                let whole : b' ≡ x = p ∙ ap (λ l. x ++ l) none_left ∙ append-nil x in
                (
                  record { blk = next; off = 0 },
                  subst
                      (λ l.
                        rest_of rest (block_at blk (front ++ b') next)
                          (record { blk = blk; off = length front }) (length l)
                        ≡ got l (record { blk = next; off = 0 }))
                      whole (rest_end rest blk next front b'),
                  start-Stored c image next bs y k (sym (q ∙ ap (λ l. l ++ flat bs) none_left)),
                )
            | inr more ↦
                let some_more : 0 < length z = ground arith in
                (
                  record { blk = blk; off = length front + length x },
                  subst
                      (λ l.
                        rest_of rest (block_at blk (front ++ l) next)
                          (record { blk = blk; off = length front }) (length x)
                        ≡ got x (record { blk = blk; off = length front + length x }))
                      (sym p) (rest_less rest blk next front x z (ground arith)),
                  record {
                    blocks = (front ++ b') ∷ bs;
                    front = front ++ x;
                    chain = (next, h, k);
                    bytes =
                        ap (λ l. (front ++ l) ++ flat bs) p
                        ∙ ap (λ l. l ++ flat bs) (sym (append_assoc front x z))
                        ∙ append_assoc (front ++ x) z (flat bs)
                        ∙ ap (λ l. (front ++ x) ++ l) (sym q);
                    offset = length-append front x;
                    within = omega (
                      arith,
                      ap length p,
                      length-append {0} x z,
                      length-append {0} front x,
                      length-append {0} front b',
                      some_more,
                    );
                  },
                )
          ]
    ]

plain_loop-Reads :
    (c : Compressor) (image : Image) (rounds : ℕ) (place : Place) (x y : List ℕ)
    → 0 < length x
    → length x < rounds
    → Stored c image place (x ++ y)
    → Reads c image (plain_loop c image rounds place (length x)) x y
plain_loop-Reads c image zero place x y p q st = elim q [ ]
plain_loop-Reads c image (suc rounds) place x y p q st =
    let r = round_of c image place (x ++ y) (omega (arith, length-append {0} x y)) st in
    let here : place ≡ record { blk = place.blk; off = length r.front } =
      ap (λ n. record { blk = place.blk; off = n }) (sym r.offset) in
    let inside : place.off < length (r.front ++ r.b') =
      omega (arith, r.offset, length-append {0} r.front r.b', r.some_left) in
    let rest = λ (blk n : ℕ). plain_loop c image rounds (record { blk = blk; off = 0 }) n in
    let found =
      round-Reads c image rest place.blk x y r.front r.b' r.bs r.next r.fetched r.chain r.bytes
        (λ x' less e s.
          plain_loop-Reads c image rounds (record { blk = r.next; off = 0 }) x' y
            (omega (arith, ap length e, length-append {0} r.b' x'))
            (omega (arith, ap length e, length-append {0} r.b' x', r.some_left)) s) in
    subst (λ l. Reads c image l x y)
      (sym (
        plain_round c image rounds place (length x) (block_at place.blk (r.front ++ r.b') r.next)
          r.fetched inside
        ∙ ap (λ pl. rest_of rest (block_at place.blk (r.front ++ r.b') r.next) pl (length x)) here))
      found

-- Of what is stored at a place, the front is read, and the rest is stored at the new place.
pub plain_read-Reads :
    (c : Compressor) (image : Image) (place : Place) (x y : List ℕ)
    → 0 < length x
    → Stored c image place (x ++ y)
    → Reads c image (plain_read c image place (length x)) x y
unfolding plain_read
plain_read-Reads c image place x y p st =
    plain_loop-Reads c image (length x + 1) place x y p (omega arith) st

-- What read_inode and squashfs_opendir rely on: where bytes are stored, the front of them is read, and the rest is
-- stored at the new place.
pub record ByteReader : Type 1 where
  pub read : Place → ℕ → Read
  pub At : Place → List ℕ → Type 0
  pub reads :
      (place : Place) (x y : List ℕ)
      → 0 < length x
      → At place (x ++ y)
      → (next : Place) × (read place (length x) ≡ got x next) × At next y

-- The reader of unsquashfs, on an image.
abbrev pub image_reader : Compressor → Image → ByteReader
image_reader c image = record {
  read = plain_read c image;
  At = Stored c image;
  reads = plain_read-Reads c image;
}
