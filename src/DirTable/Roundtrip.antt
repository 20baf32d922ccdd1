-- ===== src/DirTable/Roundtrip.antt =====
-- A directory from add_dir, through write_dir and the blocks of the directory table of
-- squashfs-tools/mksquashfs.c, to squashfs_opendir of squashfs-tools/unsquash-4.c.
use mathlib.Core.Path.{subst}
use squashfs_tools.Common.{
  ℕ, ◌+◌, ◌^◌, ◌<◌, ◌≡◌, refl, ap, ap₂, ◌∙◌, inl, inr, Bool, Option, none, some, List, [], ◌∷◌,
  ◌++◌, length, arith, ◌==◌, length-append, flat, Bool-cases, All,
}
use squashfs_tools.Directory.Sort.{DirEnt}
use squashfs_tools.DirTable.{Directory, Written, Added, init_dir, add_all, put_header, write_dirs}
use squashfs_tools.DirTable.Building.{AreGroups}
use squashfs_tools.DirTable.Adding.{Holds, Holds-groups, init_dir-Holds}
use squashfs_tools.DirTable.Laws.{opendir-Holds}
use squashfs_tools.DirTable.Opendir.{opendir}
use squashfs_tools.Format.{metadata_size, make_inode}
use squashfs_tools.Metadata.{Compressor, Writer, write_table}
use squashfs_tools.Metadata.Blocks.{IsLossless}
use squashfs_tools.Metadata.Fetching.{plain_image}
use squashfs_tools.Metadata.Filling.{Runs, Runs-refl, Runs-trans}
use squashfs_tools.Metadata.Flushing.{Flushed, write_table_lem}
use squashfs_tools.Metadata.Laws.{Marked, Marked-Stored}
use squashfs_tools.Metadata.Reader.{Image, Place, Read}
use squashfs_tools.Metadata.Reading.{plain_read}
use squashfs_tools.Metadata.ByteReader.{image_reader}
use squashfs_tools.DirTable.Image.{Wrote, write_dir_lem, entries_of, IsListing, add_all-Holds}

no_bytes : (b : List ℕ) (gs : List (List DirEnt)) → AreGroups b gs → length b ≡ 0 → flat gs ≡ []
no_bytes b [] h e = refl
no_bytes b (g ∷ gs) (h, r, p, i, k) e =
    absurd (omega (arith, ap length p, length-append {0} h r, ap length i.bytes))

-- A directory without entries is not looked up.
opendir_empty :
    (read : Place → ℕ → Read) (dir : Directory) (es : List DirEnt) (place : Place)
    → Holds dir es
    → length dir.buff ≡ 0
    → opendir read (length dir.buff + 3) place ≡ some es
unfolding opendir
opendir_empty read dir es place h e =
    let (gs, k, l, q) = Holds-groups dir es h in
    rw (e, q, no_bytes (put_header dir) gs k (l ∙ e)) refl

-- The entries are found at the place that write_dir gave.
abbrev pub IsOpened : Compressor → Image → ℕ → List Added → Written → Type 0
IsOpened c image start entries written =
    opendir (plain_read c image) written.byte_size
      (record { blk = start + written.start_block; off = written.offset })
    ≡ some (entries_of entries)

abbrev pub AreOpened : Compressor → Image → ℕ → List (List Added) → List Written → Type 0
AreOpened c image start [] [] = Unit
AreOpened c image start (entries ∷ dirs) (written ∷ others) =
    IsOpened c image start entries written × AreOpened c image start dirs others
AreOpened c image start _ _ = ⊥

abbrev IsShort : Option (List ℕ) → Type 0
IsShort none = Unit
IsShort (some table) = length table < 2 ^ 32

-- The table that is written after the directories has less than 2 ^ 32 bytes, as far as the place of a
-- directory can say.
abbrev pub IsAddressable : Compressor → Bool → Option (List Written × Writer) → Type 0
IsAddressable c noi none = Unit
IsAddressable c noi (some r) = IsShort (write_table c noi r.1)

Wrote-IsOpened :
    (c : Compressor) (entries : List Added) (w v u : Writer) (written : Written)
    (before after added : List ℕ)
    → IsListing entries
    → Wrote c (add_all entries (init_dir 0 0)) w written v
    → length w.cache < metadata_size
    → Runs c v added u
    → (end : Writer) → Flushed c u end
    → length end.table < 2 ^ 32
    → IsOpened c (plain_image (before ++ (end.table ++ after))) (length before) entries written
Wrote-IsOpened c entries w v u written before after added good wrote short r end f n =
    let dir = add_all entries (init_dir 0 0) in
    let image = plain_image (before ++ (end.table ++ after)) in
    let held =
      add_all-Holds entries (init_dir 0 0) [] good.some_names good.kinds (init_dir-Holds 0 0) in
    let place : Place = record { blk = length before + length w.table; off = length w.cache } in
    let (gs, k, l, q) = Holds-groups dir (entries_of entries) held in
    let found : opendir (plain_read c image) (length dir.buff + 3) place
        ≡ some (entries_of entries) =
      elim (Bool-cases (length dir.buff == 0)) [
        | inl t ↦
            opendir_empty (plain_read c image) dir (entries_of entries) place held (ground arith)
        | inr more ↦
            let some_bytes : 0 < length (put_header dir) = ground (arith, l) in
            let mark : Marked c u (put_header dir) (make_inode (length w.table) (length w.cache)) =
              record {
                at = w;
                more = added;
                runs = Runs-trans c w (put_header dir) v added u wrote.runs r;
                short = short;
                place_is = refl;
              } in
            opendir-Holds (image_reader c image) dir (entries_of entries) place added held
              good.named good.in_order good.fits
              (Marked-Stored c u end (put_header dir) before after
                (make_inode (length w.table) (length w.cache)) some_bytes f mark)
      ] in
    let small : length w.table < 2 ^ 32 = omega (
      arith,
      ap length f.table,
      ap length r.table,
      ap length wrote.runs.table,
      length-append {0} u.table f.bytes,
      length-append {0} v.table r.bytes,
      length-append {0} w.table wrote.runs.bytes,
    ) in
    let block : written.start_block ≡ length w.table = wrote.start_block ∙ omega arith in
    let here : record { blk = length before + written.start_block; off = written.offset } ≡ place =
      ap₂ (λ b o. record { blk = length before + b; off = o }) block wrote.offset in
    ap₂ (λ n pl. opendir (plain_read c image) n pl) wrote.byte_size here ∙ found

write_dirs_lem :
    (c : Compressor) (noi : Bool) (dirs : List (List Added)) (w : Writer) (before after : List ℕ)
    → IsLossless c
    → length w.cache < metadata_size
    → All IsListing dirs
    → (written : List Written) × (u : Writer) × (added : List ℕ) × (write_dirs c noi dirs w
        ≡ some (written, u))
      × Runs c w added u
      × ((end : Writer)
          → Flushed c u end
          → length end.table < 2 ^ 32
          → AreOpened c (plain_image (before ++ (end.table ++ after))) (length before) dirs written)
unfolding write_dirs
write_dirs_lem c noi [] w before after l p good = ([], w, [], refl, Runs-refl c w, λ end f n. tt)
write_dirs_lem c noi (entries ∷ dirs) w before after l p (g, good) =
    let dir = add_all entries (init_dir 0 0) in
    let held = add_all-Holds entries (init_dir 0 0) [] g.some_names g.kinds (init_dir-Holds 0 0) in
    let (gs, k, len, q) = Holds-groups dir (entries_of entries) held in
    let (one, v, h, wrote) = write_dir_lem c noi dir w l p len in
    let (others, u, added, h', r, opened) =
      write_dirs_lem c noi dirs v before after l wrote.short good in
    (
      one ∷ others,
      u,
      put_header dir ++ added,
      rw (h, h') refl,
      Runs-trans c w (put_header dir) v added u wrote.runs r,
      λ end f n. (
        Wrote-IsOpened c entries w v u one before after added g wrote p r end f n,
        opened end f n,
      ),
    )

-- For a compressor that does not fail and gives back what it compressed: directories are filled
-- by add_dir, each is written by write_dir, and the table by write_directories. Wherever the
-- table is put in an image, squashfs_opendir at the place of each directory gives its entries, in
-- their order and with their names up to 256 bytes, start blocks, offsets and types, where the
-- names are accepted by check_name and check_directory, a directory has less than 2 ^ 31 bytes
-- and the table less than 2 ^ 32.
pub write_dirs-opendir :
    (c : Compressor) (noi : Bool) (dirs : List (List Added)) (w : Writer) (before after : List ℕ)
    → IsLossless c
    → length w.cache < metadata_size
    → All IsListing dirs
    → IsAddressable c noi (write_dirs c noi dirs w)
    → (written : List Written) × (w' : Writer) × (table : List ℕ) × (write_dirs c noi dirs w
        ≡ some (written, w'))
      × (write_table c noi w' ≡ some table)
      × AreOpened c (plain_image (before ++ (table ++ after))) (length before) dirs written
write_dirs-opendir c noi dirs w before after l p good n =
    let (written, u, added, h, r, opened) = write_dirs_lem c noi dirs w before after l p good in
    let (end, h', f) = write_table_lem c noi u l in
    let short = subst IsShort h' (subst (IsAddressable c noi) h n) in
    (written, u, end.table, h, h', opened end f short)
