-- ===== src/Metadata/Roundtrip.antt =====
-- What squashfs-tools/mksquashfs.c packs, read_metadata of squashfs-tools/unsquashfs.c gives back.
use mathlib.Core.Path.{subst}
use squashfs_tools.Common.{
  ℕ, ◌+◌, ◌^◌, ◌<◌, ◌≡◌, refl, sym, ap, ap₂, ◌∙◌, Bool, Option, none, some, List, [], ◌∷◌, ◌++◌,
  length, arith, length-append, All,
}
use squashfs_tools.Format.{metadata_size, make_inode, inode_blk, inode_offset}
use squashfs_tools.Metadata.{Compressor, Writer, write_all}
use squashfs_tools.Metadata.Blocks.{IsLossless}
use squashfs_tools.Metadata.Fetching.{plain_image}
use squashfs_tools.Metadata.Flushing.{Flushed, write_table_lem}
use squashfs_tools.Metadata.Reader.{Image, Table, Place, got, read_metadata}
use squashfs_tools.Metadata.Reading.{IsFaithful}
use squashfs_tools.Metadata.Stored.{Stored}
use squashfs_tools.Metadata.Laws.{Marked, AllMarked, get_inodes_lem, Marked-Stored}

-- The table has less than 2 ^ 32 bytes, as far as the number of an inode can say.
abbrev pub IsAddressable : Option (List ℕ × List ℕ) → Type 0
IsAddressable none = Unit
IsAddressable (some r) = length r.1 < 2 ^ 32

-- The place of an inode whose table starts at `start`.
abbrev pub place_of : ℕ → ℕ → Place
place_of start inode = record { blk = start + inode_blk inode; off = inode_offset inode }

-- `x` stands at the inode, whatever comes behind it.
abbrev pub IsStored : Compressor → Image → ℕ → List ℕ → ℕ → Type 0
IsStored c image start x inode = (more : List ℕ) × Stored c image (place_of start inode) (x ++ more)

abbrev pub AreStored : Compressor → Image → ℕ → List (List ℕ) → List ℕ → Type 0
AreStored c image start [] [] = Unit
AreStored c image start (x ∷ xs) (p ∷ ps) =
    IsStored c image start x p × AreStored c image start xs ps
AreStored c image start _ _ = ⊥

-- read_metadata gives the bytes `x` at the inode, with whatever its hash table holds.
abbrev pub IsReadBack : Compressor → Image → ℕ → List ℕ → ℕ → Type 0
IsReadBack c image start x inode =
    (next : Place) × ((table : Table)
      → IsFaithful c image table
      → (read_metadata c image table (place_of start inode) (length x)).0 ≡ got x next)

abbrev pub AreReadBack : Compressor → Image → ℕ → List (List ℕ) → List ℕ → Type 0
AreReadBack c image start [] [] = Unit
AreReadBack c image start (x ∷ xs) (p ∷ ps) =
    IsReadBack c image start x p × AreReadBack c image start xs ps
AreReadBack c image start _ _ = ⊥

place_of-make_inode :
    (start blk off : ℕ)
    → blk < 2 ^ 32
    → off < metadata_size
    → place_of start (make_inode blk off) ≡ record { blk = start + blk; off = off }
unfolding make_inode inode_blk inode_offset
place_of-make_inode start blk off p q =
    ap₂ (λ (b o : ℕ). record { blk = start + b; off = o }) (omega arith) (omega arith)

Marked-IsStored :
    (c : Compressor) (w w' : Writer) (x before after : List ℕ) (place : ℕ)
    → 0 < length x
    → Flushed c w w'
    → length w'.table < 2 ^ 32
    → Marked c w x place
    → IsStored c (plain_image (before ++ (w'.table ++ after))) (length before) x place
Marked-IsStored c w w' x before after place p f n m =
    let small : length m.at.table < 2 ^ 32 = omega (
      arith,
      ap length f.table,
      ap length m.runs.table,
      length-append {0} w.table f.bytes,
      length-append {0} m.at.table m.runs.bytes,
    ) in
    let here =
      ap (place_of (length before)) m.place_is
      ∙ place_of-make_inode (length before) (length m.at.table) (length m.at.cache) small m.short in
    (
      m.more,
      subst (λ pl. Stored c (plain_image (before ++ (w'.table ++ after))) pl (x ++ m.more))
          (sym here) (Marked-Stored c w w' x before after place p f m),
    )

AllMarked-AreStored :
    (c : Compressor) (w w' : Writer) (xs : List (List ℕ)) (places before after : List ℕ)
    → All (λ x. 0 < length x) xs
    → Flushed c w w'
    → length w'.table < 2 ^ 32
    → AllMarked c w xs places
    → AreStored c (plain_image (before ++ (w'.table ++ after))) (length before) xs places
unfolding AllMarked
AllMarked-AreStored c w w' [] [] before after p f n m = tt
AllMarked-AreStored c w w' (x ∷ xs) (q ∷ ps) before after p f n m = (
  Marked-IsStored c w w' x before after q p.0 f n m.0,
  AllMarked-AreStored c w w' xs ps before after p.1 f n m.1,
)
AllMarked-AreStored c w w' [] (q ∷ ps) before after p f n m = elim m [ ]
AllMarked-AreStored c w w' (x ∷ xs) [] before after p f n m = elim m [ ]

-- Each of the inodes stands where its place says.
pub write_all-AreStored :
    (c : Compressor) (noi : Bool) (inodes : List (List ℕ)) (w : Writer) (before after : List ℕ)
    → IsLossless c
    → All (λ x. 0 < length x) inodes
    → IsAddressable (write_all c noi inodes w)
    → (places : List ℕ) × (table : List ℕ) × (write_all c noi inodes w ≡ some (places, table))
      × AreStored c (plain_image (before ++ (table ++ after))) (length before) inodes places
unfolding write_all
write_all-AreStored c noi inodes w before after l p n =
    let (v, places, added, h, ms, r) = get_inodes_lem c noi inodes w l in
    let (u, h', f) = write_table_lem c noi v l in
    let done : write_all c noi inodes w ≡ some (places, u.table) = rw (h, h') refl in
    (
      places,
      u.table,
      done,
      AllMarked-AreStored c v u inodes places before after p f (subst IsAddressable done n) ms,
    )
