-- ===== src/Metadata/Laws.antt =====
-- What squashfs-tools/mksquashfs.c packs, read_metadata of squashfs-tools/unsquashfs.c gives back.
use mathlib.Core.Path.{subst}
use mathlib.Core.List.{append_assoc, append-nil}
use squashfs_tools.Common.{
  ℕ, ◌+◌, ◌<◌, ◌≡◌, refl, sym, ap, ◌∙◌, Bool, some, List, [], ◌∷◌, ◌++◌, length, arith,
  length-append, flat, flat-append,
}
use squashfs_tools.Format.{metadata_size, make_inode}
use squashfs_tools.Metadata.{Compressor, Writer, get_inodes}
use squashfs_tools.Metadata.Blocks.{IsLossless}
use squashfs_tools.Metadata.Fetching.{plain_image, fetch-Encodes}
use squashfs_tools.Metadata.Filling.{
  IsPacked, IsPacked-append, IsCut, IsCut-append, Runs, Runs-refl, Runs-trans,
}
use squashfs_tools.Metadata.Flushing.{Flushed, get_inode_lem}
use squashfs_tools.Metadata.Reader.{fetch}
use squashfs_tools.Metadata.Stored.{block_at, Chain, Within, Stored}

IsPacked-Chain :
    (c : Compressor) (before t after : List ℕ) (bs : List (List ℕ))
    → IsPacked c t bs
    → Chain c (plain_image (before ++ (t ++ after))) (length before) bs
IsPacked-Chain c before t after [] h = tt
IsPacked-Chain c before t after (b ∷ bs) (e, t', p, q, h) =
    let here : before ++ (e ++ (t' ++ after)) ≡ before ++ (t ++ after) =
      ap (λ l. before ++ l) (sym (append_assoc e t' after) ∙ ap (λ l. l ++ after) (sym p)) in
    let first =
      subst
        (λ l.
          fetch c (plain_image l) (length before)
          ≡ some (block_at (length before) b (length before + length e)))
        here (fetch-Encodes c b e before (t' ++ after) q) in
    let there : (before ++ e) ++ (t' ++ after) ≡ before ++ (t ++ after) =
      append_assoc before e (t' ++ after) ∙ here in
    let rest =
      subst (λ l. Chain c (plain_image l) (length (before ++ e)) bs) there
        (IsPacked-Chain c (before ++ e) t' after bs h) in
    (
      length before + length e,
      first,
      subst (λ n. Chain c (plain_image (before ++ (t ++ after))) n bs) (length-append before e)
          rest,
    )

IsCut-Within :
    (front s : List ℕ) (bs : List (List ℕ))
    → length front < metadata_size
    → 0 < length s
    → IsCut bs
    → flat bs ≡ front ++ s
    → Within front bs
IsCut-Within front s [] p q h e = tt
IsCut-Within front s (b ∷ []) p q h e =
    omega (arith, ap length e, length-append {0} front s, length-append {0} b [])
IsCut-Within front s (b ∷ b' ∷ bs) p q h e = omega (arith, h.0)

-- `x` stands at `place` of what goes through the writer.
pub record Marked (c : Compressor) (w : Writer) (x : List ℕ) (place : ℕ) : Type 0 where
  pub at : Writer
  pub more : List ℕ
  pub runs : Runs c at (x ++ more) w
  pub short : length at.cache < metadata_size
  pub place_is : place ≡ make_inode (length at.table) (length at.cache)

pub Marked-Runs :
    (c : Compressor) (w v : Writer) (x added : List ℕ) (place : ℕ)
    → Marked c w x place
    → Runs c w added v
    → Marked c v x place
Marked-Runs c w v x added place m r = record {
  at = m.at;
  more = m.more ++ added;
  runs =
      subst (λ l. Runs c m.at l v) (append_assoc x m.more added)
        (Runs-trans c m.at (x ++ m.more) w added v m.runs r);
  short = m.short;
  place_is = m.place_is;
}

unfoldable pub AllMarked : Compressor → Writer → List (List ℕ) → List ℕ → Type 0
AllMarked c w [] [] = Unit
AllMarked c w (x ∷ xs) (p ∷ ps) = Marked c w x p × AllMarked c w xs ps
AllMarked c w _ _ = ⊥

-- The places are those of the inodes, and nothing is lost.
pub get_inodes_lem :
    (c : Compressor) (noi : Bool) (xs : List (List ℕ)) (w : Writer)
    → IsLossless c
    → (w' : Writer) × (places : List ℕ) × (added : List ℕ) × (get_inodes c noi xs w
        ≡ some (w', places))
      × AllMarked c w' xs places
      × Runs c w added w'
unfolding get_inodes AllMarked
get_inodes_lem c noi [] w l = (w, [], [], refl, tt, Runs-refl c w)
get_inodes_lem c noi (x ∷ xs) w l =
    let (v, p, h, g) = get_inode_lem c noi x w l in
    let (u, ps, added, h', ms, r) = get_inodes_lem c noi xs v l in
    let mark : Marked c v x p = record {
      at = g.at;
      more = [];
      runs = subst (λ k. Runs c g.at k v) (sym (append-nil x)) g.after;
      short = g.short;
      place_is = g.place_is;
    } in
    (
      u,
      p ∷ ps,
      x ++ added,
      rw (h, h') refl,
      (Marked-Runs c v u x added p mark r, ms),
      Runs-trans c w x v added u (Runs-trans c w [] g.at x v g.before g.after) r,
    )

-- With the last blocks written, what is marked is stored.
pub Marked-Stored :
    (c : Compressor) (w w' : Writer) (x before after : List ℕ) (place : ℕ)
    → 0 < length x
    → Flushed c w w'
    → (m : Marked c w x place)
    → Stored c
        (plain_image (before ++ (w'.table ++ after)))
        (record { blk = length before + length m.at.table; off = length m.at.cache })
        (x ++ m.more)
Marked-Stored c w w' x before after place p f m =
    let bs = m.runs.blocks ++ f.blocks in
    let t = m.runs.bytes ++ f.bytes in
    let packed =
      IsPacked-append c m.runs.bytes f.bytes m.runs.blocks f.blocks m.runs.packed f.packed in
    let bytes : flat bs ≡ m.at.cache ++ (x ++ m.more) =
      flat-append m.runs.blocks f.blocks
      ∙ ap (λ l. flat m.runs.blocks ++ l) (sym f.kept)
      ∙ sym m.runs.kept in
    let table : (before ++ m.at.table) ++ (t ++ after) ≡ before ++ (w'.table ++ after) =
      append_assoc before m.at.table (t ++ after)
      ∙ ap (λ l. before ++ l)
          (sym (append_assoc m.at.table t after)
            ∙ ap (λ l. l ++ after)
                (sym (append_assoc m.at.table m.runs.bytes f.bytes)
                  ∙ ap (λ l. l ++ f.bytes) (sym m.runs.table)
                  ∙ sym f.table)) in
    let chain =
      subst (λ l. Chain c (plain_image l) (length (before ++ m.at.table)) bs) table
        (IsPacked-Chain c (before ++ m.at.table) t after bs packed) in
    record {
      blocks = bs;
      front = m.at.cache;
      chain =
          subst (λ n. Chain c (plain_image (before ++ (w'.table ++ after))) n bs)
            (length-append before m.at.table) chain;
      bytes = bytes;
      offset = refl;
      within =
          IsCut-Within m.at.cache (x ++ m.more) bs m.short
            (omega (arith, length-append {0} x m.more))
            (IsCut-append m.runs.blocks f.blocks m.runs.full f.cut) bytes;
    }
