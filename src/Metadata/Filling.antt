-- ===== src/Metadata/Filling.antt =====
-- What the writers of squashfs-tools/mksquashfs.c do to a table: each puts blocks behind those that
-- are there, and no byte of the cache is lost.
use mathlib.Core.List.{append_assoc, append-nil}
use squashfs_tools.Common.{
  ℕ, ◌≡◌, refl, sym, ap, ◌∙◌, List, [], ◌∷◌, ◌++◌, length, All, All-append, flat, flat-append,
}
use squashfs_tools.Format.{metadata_size}
use squashfs_tools.Metadata.{Compressor, Writer}
use squashfs_tools.Metadata.Blocks.{Encodes}

-- The bytes of a table that holds the blocks.
abbrev pub IsPacked : Compressor → List ℕ → List (List ℕ) → Type 0
IsPacked c t [] = t ≡ []
IsPacked c t (b ∷ bs) =
    (e : List ℕ) × (t' : List ℕ) × (t ≡ e ++ t') × Encodes c b e × IsPacked c t' bs

pub IsPacked-append :
    (c : Compressor) (t u : List ℕ) (xs ys : List (List ℕ))
    → IsPacked c t xs
    → IsPacked c u ys
    → IsPacked c (t ++ u) (xs ++ ys)
IsPacked-append c t u [] ys h k = rw h k
IsPacked-append c t u (x ∷ xs) ys (e, t', p, q, h) k =
    (e, t' ++ u, rw p (append_assoc e t' u), q, IsPacked-append c t' u xs ys h k)

abbrev pub IsFull : List ℕ → Type 0
IsFull b = length b ≡ metadata_size

-- Each block but the last is full.
abbrev pub IsCut : List (List ℕ) → Type 0
IsCut [] = Unit
IsCut (b ∷ []) = Unit
IsCut (b ∷ b' ∷ bs) = IsFull b × IsCut (b' ∷ bs)

pub IsCut-cons : (b : List ℕ) (bs : List (List ℕ)) → IsFull b → IsCut bs → IsCut (b ∷ bs)
IsCut-cons b [] h k = tt
IsCut-cons b (b' ∷ bs) h k = (h, k)

pub IsCut-append : (xs ys : List (List ℕ)) → All IsFull xs → IsCut ys → IsCut (xs ++ ys)
IsCut-append [] ys h k = k
IsCut-append (x ∷ xs) ys (p, h) k = IsCut-cons x (xs ++ ys) p (IsCut-append xs ys h k)

-- From `w` to `w'` the bytes `added` came into the cache, and blocks went from it to the table.
pub record Runs (c : Compressor) (w : Writer) (added : List ℕ) (w' : Writer) : Type 0 where
  pub blocks : List (List ℕ)
  pub bytes : List ℕ
  pub table : w'.table ≡ w.table ++ bytes
  pub packed : IsPacked c bytes blocks
  pub full : All IsFull blocks
  pub kept : w.cache ++ added ≡ flat blocks ++ w'.cache

pub Runs-refl : (c : Compressor) (w : Writer) → Runs c w [] w
Runs-refl c w = record {
  blocks = [];
  bytes = [];
  table = sym (append-nil w.table);
  packed = refl;
  full = tt;
  kept = append-nil w.cache;
}

pub Runs-trans :
    (c : Compressor) (w : Writer) (a : List ℕ) (v : Writer) (b : List ℕ) (u : Writer)
    → Runs c w a v
    → Runs c v b u
    → Runs c w (a ++ b) u
Runs-trans c w a v b u h k = record {
  blocks = h.blocks ++ k.blocks;
  bytes = h.bytes ++ k.bytes;
  table = rw (k.table, h.table) (append_assoc w.table h.bytes k.bytes);
  packed = IsPacked-append c h.bytes k.bytes h.blocks k.blocks h.packed k.packed;
  full = All-append IsFull h.blocks k.blocks h.full k.full;
  kept =
      sym (append_assoc w.cache a b)
      ∙ ap (λ l. l ++ b) h.kept
      ∙ append_assoc (flat h.blocks) v.cache b
      ∙ ap (λ l. flat h.blocks ++ l) k.kept
      ∙ sym (append_assoc (flat h.blocks) (flat k.blocks) u.cache)
      ∙ ap (λ l. l ++ u.cache) (sym (flat-append h.blocks k.blocks));
}
