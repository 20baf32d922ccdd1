-- ===== src/Metadata/Reading.antt =====
-- read_metadata of squashfs-tools/unsquashfs.c, seen from its callers: its hash table does not
-- change what is read, and what is read is the bytes of the blocks, whatever their borders.
use mathlib.Core.Path.{subst}
use squashfs_tools.Common.{
  ℕ, zero, suc, ◌+◌, ◌-◌, ◌<◌, ◌≡◌, ◌≢◌, ◌⊎◌, refl, sym, inl, inr, true, false, none, some, List,
  [], ◌∷◌, length, take, drop, if◌then◌else◌, ◌==◌, ltb, leb, arith, Bool-cases, Option-cases, All,
  update,
}
use squashfs_tools.Metadata.{Compressor}
use squashfs_tools.Metadata.Reader.{
  Image, Entry, Table, table_hash, find_start, fetch, get_metadata, Place, Read, failed, stuck, got,
  behind, copy, read_loop, read_metadata,
}

-- The loop of read_metadata without its hash table.
abbrev pub rest_of : (ℕ → ℕ → Read) → Entry → Place → ℕ → Read
rest_of rest e place len =
    let here = length e.buffer - place.off in
    if ltb here len
    then behind (take here (drop place.off e.buffer)) (rest e.next_index (len - here))
    else (if here == len
        then got (take len (drop place.off e.buffer)) (record { blk = e.next_index; off = 0 })
        else got (take len (drop place.off e.buffer))
            (record { blk = place.blk; off = place.off + len }))

unfoldable pub plain_loop : Compressor → Image → ℕ → Place → ℕ → Read
plain_loop c image zero place len = stuck
plain_loop c image (suc rounds) place len = elim (fetch c image place.blk) [
  | none ↦ failed
  | some e ↦ elim (leb (length e.buffer) place.off) [
    | true ↦ failed
    | false ↦
        rest_of (λ blk len'. plain_loop c image rounds (record { blk = blk; off = 0 }) len') e place
          len
  ]
]

unfoldable pub plain_read : Compressor → Image → Place → ℕ → Read
unfolding plain_loop
plain_read c image place len = plain_loop c image (len + 1) place len

-- Each entry of the table has the block that it is for.
pub record IsFaithful (c : Compressor) (image : Image) (table : Table) : Type 0 where
  pub entries : (hash : ℕ) → All (λ e. fetch c image e.start ≡ some e) (table hash)

find_start-fetch :
    (c : Compressor) (image : Image) (start : ℕ) (es : List Entry)
    → All (λ e. fetch c image e.start ≡ some e) es
    → (find_start start es ≡ none)
      ⊎ ((e : Entry) × (find_start start es ≡ some e) × (fetch c image start ≡ some e))
unfolding find_start
find_start-fetch c image start [] h = inl refl
find_start-fetch c image start (e ∷ es) (p, h) = elim (Bool-cases (e.start == start)) [
  | inl t ↦ let same : e.start ≡ start = ground arith in inr (e, rw t refl, rw (sym same) p)
  | inr f ↦ rw f (find_start-fetch c image start es h)
]

fetch_start :
    (c : Compressor) (image : Image) (start : ℕ) (e : Entry)
    → fetch c image start ≡ some e
    → e.start ≡ start
unfolding fetch
fetch_start c image start e h = ground arith

keep_entry :
    (c : Compressor) (image : Image) (table : Table) (start : ℕ) (e : Entry) (hash : ℕ)
    → IsFaithful c image table
    → fetch c image start ≡ some e
    → All
        (λ x. fetch c image x.start ≡ some x)
        (update table (table_hash start) (e ∷ table (table_hash start)) hash)
keep_entry c image table start e hash h q = elim (Bool-cases (table_hash start == hash)) [
  | inl t ↦ rw t (
    subst (λ n. fetch c image n ≡ some e) (sym (fetch_start c image start e q)) q,
    h.entries (table_hash start),
  )
  | inr f ↦ rw f (h.entries hash)
]

get_metadata-fetch :
    (c : Compressor) (image : Image) (table : Table) (start : ℕ)
    → IsFaithful c image table
    → ((get_metadata c image table start).0 ≡ fetch c image start)
      × IsFaithful c image (get_metadata c image table start).1
unfolding get_metadata
get_metadata-fetch c image table start h =
    elim (find_start-fetch c image start (table (table_hash start))
      (h.entries (table_hash start))) [
        | inr (e, p, q) ↦ rw (p, q, get_metadata) (refl, h)
        | inl p ↦ elim (Option-cases (fetch c image start)) [
          | inl q ↦ rw (p, q, get_metadata) (refl, h)
          | inr (e, q) ↦
              rw (p, q, get_metadata)
                (refl, record { entries = λ hash. keep_entry c image table start e hash h q })
        ]
      ]

-- The answer with the hash table is the one without it, and the table stays faithful.
Agrees : Compressor → Image → Read → Read × Table → Type 0
Agrees c image r o = (o.0 ≡ r) × IsFaithful c image o.1

behind-Agrees :
    (c : Compressor) (image : Image) (bytes : List ℕ) (r : Read) (o : Read × Table)
    → Agrees c image r o
    → Agrees c image (behind bytes r) (behind bytes o.0, o.1)
unfolding Agrees
behind-Agrees c image bytes r o (p, h) = (rw p refl, h)

copy-Agrees :
    (c : Compressor) (image : Image) (rest : Table → ℕ → ℕ → Read × Table) (plain : ℕ → ℕ → Read)
    (e : Entry) (table : Table) (place : Place) (len : ℕ)
    → ((t : Table) (blk n : ℕ) → IsFaithful c image t → Agrees c image (plain blk n) (rest t blk n))
    → IsFaithful c image table
    → Agrees c image (rest_of plain e place len) (copy rest e table place len)
unfolding Agrees
copy-Agrees c image rest plain e table place len agree h =
    elim (Bool-cases (ltb (length e.buffer - place.off) len)) [
      | inl t ↦ rw t (
          behind-Agrees c image (take (length e.buffer - place.off) (drop place.off e.buffer)) _ _
            (agree table e.next_index (len - (length e.buffer - place.off)) h))
      | inr f ↦ elim (Bool-cases (length e.buffer - place.off == len)) [
        | inl same ↦ rw (f, same) (refl, h)
        | inr more ↦ rw (f, more) (refl, h)
      ]
    ]

read_loop-plain_loop :
    (c : Compressor) (image : Image) (rounds : ℕ) (table : Table) (place : Place) (len : ℕ)
    → IsFaithful c image table
    → Agrees c image
        (plain_loop c image rounds place len)
        (read_loop c image rounds table place len)
unfolding Agrees read_loop plain_loop
read_loop-plain_loop c image zero table place len h = (refl, h)
read_loop-plain_loop c image (suc rounds) table place len h =
    let (p, h') = get_metadata-fetch c image table place.blk h in
    elim (Option-cases (fetch c image place.blk)) [
      | inl q ↦ rw (p, q, read_loop, plain_loop) (refl, h')
      | inr (e, q) ↦ elim (Bool-cases (leb (length e.buffer) place.off)) [
        | inl out ↦ rw (p, q, out, read_loop, plain_loop) (refl, h')
        | inr inside ↦
            rw (p, q, inside, read_loop, plain_loop)
              (copy-Agrees c image
                (λ t' blk n. read_loop c image rounds t' (record { blk = blk; off = 0 }) n)
                (λ blk n. plain_loop c image rounds (record { blk = blk; off = 0 }) n) e
                (get_metadata c image table place.blk).1 place len
                (λ t' blk n k.
                  read_loop-plain_loop c image rounds t' (record { blk = blk; off = 0 }) n k)
                h')
      ]
    ]

-- With a hash table that holds blocks of the image, read_metadata gives what reading each block
-- from the image would give, and its hash table again holds blocks of the image.
pub read_metadata-plain_read :
    (c : Compressor) (image : Image) (table : Table) (place : Place) (len : ℕ)
    → IsFaithful c image table
    → ((read_metadata c image table place len).0 ≡ plain_read c image place len)
      × IsFaithful c image (read_metadata c image table place len).1
unfolding read_metadata plain_read Agrees
read_metadata-plain_read c image table place len h =
    read_loop-plain_loop c image (len + 1) table place len h

behind-ne-stuck : (bytes : List ℕ) (r : Read) → r ≢ stuck → behind bytes r ≢ stuck
behind-ne-stuck bytes failed h e = cc
behind-ne-stuck bytes stuck h e = h refl
behind-ne-stuck bytes (got b p) h e = cc

rest_of-ne-stuck :
    (rest : ℕ → ℕ → Read) (e : Entry) (place : Place) (len rounds : ℕ)
    → ((blk n : ℕ) → n < rounds → rest blk n ≢ stuck)
    → len < suc rounds
    → place.off < length e.buffer
    → rest_of rest e place len ≢ stuck
rest_of-ne-stuck rest e place len rounds h p q =
    elim (Bool-cases (ltb (length e.buffer - place.off) len)) [
      | inl t ↦ rw t (
          behind-ne-stuck _ _ (h e.next_index (len - (length e.buffer - place.off)) (ground arith)))
      | inr f ↦ elim (Bool-cases (length e.buffer - place.off == len)) [
        | inl same ↦ rw (f, same) (λ x. cc)
        | inr more ↦ rw (f, more) (λ x. cc)
      ]
    ]

-- A round copies a byte at least, or is the last.
plain_loop-ne-stuck :
    (c : Compressor) (image : Image) (rounds : ℕ) (place : Place) (len : ℕ)
    → len < rounds
    → plain_loop c image rounds place len ≢ stuck
unfolding plain_loop
plain_loop-ne-stuck c image zero place len h = elim h [ ]
plain_loop-ne-stuck c image (suc rounds) place len h =
    elim (Option-cases (fetch c image place.blk)) [
      | inl q ↦ rw (q, plain_loop) (λ x. cc)
      | inr (e, q) ↦ elim (Bool-cases (leb (length e.buffer) place.off)) [
        | inl out ↦ rw (q, out, plain_loop) (λ x. cc)
        | inr inside ↦
            rw (q, inside, plain_loop)
              (rest_of-ne-stuck
                (λ blk n. plain_loop c image rounds (record { blk = blk; off = 0 }) n) e place len
                rounds
                (λ blk n k. plain_loop-ne-stuck c image rounds (record { blk = blk; off = 0 }) n k)
                h (ground arith))
      ]
    ]

-- With a hash table that holds blocks of the image, the loop of read_metadata ends, after at most
-- one round more than there are bytes to read, whatever the image holds.
pub read_metadata-ne-stuck :
    (c : Compressor) (image : Image) (table : Table) (place : Place) (len : ℕ)
    → IsFaithful c image table
    → (read_metadata c image table place len).0 ≢ stuck
unfolding plain_read
read_metadata-ne-stuck c image table place len h =
    rw (read_metadata-plain_read c image table place len h).0
      (plain_loop-ne-stuck c image (len + 1) place len (omega arith))
