-- ===== src/Metadata/Blocks.antt =====
-- What squashfs-tools/mksquashfs.c writes for one block of metadata.
use mathlib.Core.Path.{subst}
use squashfs_tools.Common.{
  ℕ, ◌+◌, ◌%◌, ◌^◌, ◌≤◌, ◌<◌, ◌≡◌, ◌≢◌, ◌⊎◌, refl, sym, inl, inr, Bool, true, false, none, some,
  List, [], ◌∷◌, ◌++◌, length, take, drop, leb, arith, length-take, take-length, Option-cases,
  Bool-cases,
}
use squashfs_tools.Format.{metadata_size, compressed_size, is_compressed}
use squashfs_tools.Metadata.{
  Compressor, Writer, mangle, store_smaller, with_bit, short_bytes, put_block, grow_table,
  block_offset,
}
use squashfs_tools.Metadata.Reader.{unpack}

-- What the source relies on: a compressor that does not fail, and gives back what it compressed
-- where there is room.
pub record IsLossless (c : Compressor) : Type 0 where
  pub answers : (s : List ℕ) (n : ℕ) → c.compress s n ≢ none
  pub inverse :
      (s d : List ℕ) (n m : ℕ)
      → c.compress s n ≡ some d
      → 0 < length d
      → length s ≤ m
      → c.uncompress d m ≡ some s

-- The bytes `e` are the size word and the data of the block `s`.
pub record Encodes (c : Compressor) (s e : List ℕ) : Type 0 where
  pub word : ℕ
  pub body : List ℕ
  pub bytes : e ≡ short_bytes word ++ body
  pub small : word < 2 ^ 16
  pub size : compressed_size word ≡ length body
  pub fits : length body ≤ length s
  pub block_fits : length s ≤ metadata_size
  pub unpacked : (outlen : ℕ) → length s ≤ outlen → unpack c outlen word body ≡ some s
  pub some_data : 0 < length s
  pub some_body : 0 < length body

plain_word :
    (n : ℕ)
    → 0 < n
    → n ≤ metadata_size
    → (with_bit 15 n ≡ n + 2 ^ 15)
      × (compressed_size (with_bit 15 n) ≡ n)
      × (is_compressed (with_bit 15 n) ≡ false)
unfolding compressed_size is_compressed
plain_word n p q = (ground arith, ground arith, ground arith)

small_word :
    (n : ℕ) → 0 < n → n ≤ metadata_size → (compressed_size n ≡ n) × (is_compressed n ≡ true)
unfolding compressed_size is_compressed
small_word n p q = (ground arith, ground arith)

stored_plain :
    (c : Compressor) (s : List ℕ)
    → 0 < length s
    → length s ≤ metadata_size
    → Encodes c s (short_bytes (with_bit 15 (length s)) ++ s)
unfolding unpack
stored_plain c s p q =
    let (e, size, bit) = plain_word (length s) p q in
    record {
      word = with_bit 15 (length s);
      body = s;
      bytes = refl;
      small = omega (arith, e);
      size = size;
      fits = omega arith;
      block_fits = q;
      unpacked = λ outlen r. rw bit refl;
      some_data = p;
      some_body = p;
    }

stored_small :
    (c : Compressor) (s d : List ℕ)
    → IsLossless c
    → c.compress s metadata_size ≡ some d
    → 0 < length d
    → length d < length s
    → length s ≤ metadata_size
    → Encodes c s (short_bytes (length d) ++ d)
unfolding unpack
stored_small c s d l h p q r =
    let (size, bit) = small_word (length d) p (omega arith) in
    record {
      word = length d;
      body = d;
      bytes = refl;
      small = omega arith;
      size = size;
      fits = omega arith;
      block_fits = r;
      unpacked = λ outlen k. rw bit (l.inverse s d metadata_size outlen h p k);
      some_data = omega arith;
      some_body = p;
    }

-- What mangle puts down for a block, with the size word that it returns.
abbrev pub Mangled : Compressor → List ℕ → List ℕ × ℕ → Type 0
Mangled c s r =
    Encodes c s (short_bytes r.1 ++ r.0) × (r.1 < 2 ^ 16) × (compressed_size r.1 ≡ length r.0)

plain_Mangled :
    (c : Compressor) (s : List ℕ)
    → 0 < length s
    → length s ≤ metadata_size
    → Mangled c s (s, with_bit 15 (length s))
plain_Mangled c s p q =
    let (e, size, bit) = plain_word (length s) p q in (stored_plain c s p q, omega (arith, e), size)

store_smaller-Mangled :
    (c : Compressor) (s d : List ℕ)
    → IsLossless c
    → (d ≡ []) ⊎ (c.compress s metadata_size ≡ some d)
    → 0 < length s
    → length s ≤ metadata_size
    → Mangled c s (store_smaller 15 s d)
unfolding store_smaller
store_smaller-Mangled c s [] l h p q = plain_Mangled c s p q
store_smaller-Mangled c s (b ∷ d) l h p q = elim h [
  | inl e ↦ cc
  | inr e ↦ elim (Bool-cases (leb (length s) (length (b ∷ d)))) [
    | inl t ↦
        let kept : store_smaller 15 s (b ∷ d) ≡ (s, with_bit 15 (length s)) = ground arith in
        subst (Mangled c s) (sym kept) (plain_Mangled c s p q)
    | inr f ↦
        let less : length (b ∷ d) < length s = ground arith in
        let shrunk : store_smaller 15 s (b ∷ d) ≡ (b ∷ d, length (b ∷ d)) = ground arith in
        let (size, bit) = small_word (length (b ∷ d)) (omega arith) (omega arith) in
        subst (Mangled c s) (sym shrunk)
          (stored_small c s (b ∷ d) l e (omega arith) less q, omega arith, size)
  ]
]

pub mangle_lem :
    (c : Compressor) (noi : Bool) (s : List ℕ)
    → IsLossless c
    → 0 < length s
    → length s ≤ metadata_size
    → (r : List ℕ × ℕ) × (mangle c 15 metadata_size noi s ≡ some r) × Mangled c s r
unfolding mangle
mangle_lem c true s l p q =
    (store_smaller 15 s [], refl, store_smaller-Mangled c s [] l (inl refl) p q)
mangle_lem c false s l p q = elim (Option-cases (c.compress s metadata_size)) [
  | inl e ↦ absurd (l.answers s metadata_size e)
  | inr (d, e) ↦ (store_smaller 15 s d, rw e refl, store_smaller-Mangled c s d l (inr e) p q)
]

-- A round of the writers' loops.
pub put_block_lem :
    (c : Compressor) (noi : Bool) (avail : ℕ) (w : Writer)
    → IsLossless c
    → 0 < avail
    → avail ≤ metadata_size
    → avail ≤ length w.cache
    → (w' : Writer) × (e : List ℕ) × (put_block c noi avail w ≡ some w')
      × (w'.table ≡ w.table ++ e)
      × (w'.cache ≡ drop avail w.cache)
      × Encodes c (take avail w.cache) e
unfolding put_block
put_block_lem c noi avail w l p q r =
    let n : length (take avail w.cache) ≡ avail = omega (arith, length-take {0} avail w.cache) in
    let (m, h, (good, small, size)) =
      mangle_lem c noi (take avail w.cache) l (omega (arith, n)) (omega (arith, n)) in
    let word : m.1 % 2 ^ 16 ≡ m.1 = omega arith in
    let body : take (compressed_size (m.1 % 2 ^ 16)) m.0 ≡ m.0 =
      rw (word, size) (take-length m.0) in
    (
      record w {
        table = w.table ++ (short_bytes m.1 ++ m.0);
        table_size = grow_table w;
        total = w.total + avail + block_offset;
        cache = drop avail w.cache;
      },
      short_bytes m.1 ++ m.0,
      rw (h, word, size, take-length m.0) refl,
      refl,
      refl,
      good,
    )
