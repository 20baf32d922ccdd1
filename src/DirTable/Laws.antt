-- ===== src/DirTable/Laws.antt =====
-- squashfs_opendir of squashfs-tools/unsquash-4.c on what add_dir and write_dir of
-- squashfs-tools/mksquashfs.c wrote.
use mathlib.Core.Path.{subst}
use mathlib.Core.List.{append_assoc}
use squashfs_tools.Common.{
  ℕ, zero, suc, ◌+◌, ◌-◌, ◌%◌, ◌^◌, ◌≤◌, ◌<◌, ◌≡◌, refl, sym, ap, ap₂, ◌∙◌, inl, inr, true, false,
  some, List, [], ◌∷◌, ◌++◌, map, length, ◌==◌, leb, arith, length-append, flat, take-length,
  Bool-cases, All, All-left, All-right,
}
use squashfs_tools.Directory.{check_name, check_directory}
use squashfs_tools.Directory.Sort.{DirEnt}
use squashfs_tools.DirTable
use squashfs_tools.DirTable.{name_len, header_size, header_bytes, entry_bytes, put_header}
use squashfs_tools.DirTable.Building.{IsEntry, bytes_of_entry, AreEntries, AreGroups}
use squashfs_tools.DirTable.Adding.{Holds, Holds-groups}
use squashfs_tools.DirTable.Opendir.{
  too_many, bytes_wanted, read_entry, read_entries, read_groups, opendir,
}
use squashfs_tools.Format.Fields.{field, short_at, int_at, number-short, number-int}
use squashfs_tools.Metadata.Reader.{Place, got}
use squashfs_tools.Metadata.ByteReader.{ByteReader}

module _ (r : ByteReader) where
  open r use {read, At, reads}

  -- An entry with a name that check_name accepts.
  abbrev pub IsNamed : DirEnt → Type 0
  IsNamed e = check_name e.name (length e.name) ≡ true

  entry_head : DirEnt → ℕ → List ℕ
  entry_head e delta =
      field 2 e.offset ++ (field 2 delta ++ (field 2 e.kind ++ field 2 (length e.name - 1)))

  read_entry_step :
      (sb : ℕ) (place p1 p2 : Place) (dire name : List ℕ)
      → read place 8 ≡ got dire p1
      → leb name_len (short_at 6 dire) ≡ false
      → read p1 (short_at 6 dire + 1) ≡ got name p2
      → check_name name (short_at 6 dire + 1) ≡ true
      → read_entry read sb place
        ≡ some (
          record {
            name = name;
            start_block = sb;
            offset = short_at 0 dire;
            kind = short_at 4 dire;
          },
          8 + (short_at 6 dire + 1),
          p2,
        )
  unfolding read_entry
  read_entry_step sb place p1 p2 dire name h1 f h2 c = rw (h1, f, h2, c) refl

  read_entry_lem :
      (e : DirEnt) (delta : ℕ) (place : Place) (y : List ℕ)
      → IsEntry e
      → IsNamed e
      → At place (bytes_of_entry e delta ++ y)
      → (next : Place) × (read_entry read e.start_block place ≡ some (e, 8 + length e.name, next))
        × At next y
  unfolding entry_bytes entry_head
  read_entry_lem e delta place y i n at =
      let head = entry_head e delta in
      let split : bytes_of_entry e delta ++ y ≡ head ++ (e.name ++ y) =
        rw (take-length e.name) refl in
      let (p1, r1, at1) =
        reads place head (e.name ++ y) (omega arith) (subst (At place) split at) in
      let (p2, r2, at2) = reads p1 e.name y i.name_some at1 in
      let size : short_at 6 head ≡ length e.name - 1 =
        number-short (length e.name - 1) (omega (arith, i.name_fits)) in
      let fits : leb name_len (short_at 6 head) ≡ false =
        ground (arith, size, i.name_fits, i.name_some) in
      let back : short_at 6 head + 1 ≡ length e.name = omega (arith, size, i.name_some) in
      let found =
        read_entry_step e.start_block place p1 p2 head e.name r1 fits (ap (read p1) back ∙ r2)
          (ap (check_name e.name) back ∙ n) in
      let same : record {
        name = e.name;
        start_block = e.start_block;
        offset = short_at 0 head;
        kind = short_at 4 head;
      }
          ≡ e =
        ap₂ (λ o k. record { name = e.name; start_block = e.start_block; offset = o; kind = k })
          (number-short e.offset i.offset_fits) (number-short e.kind i.kind_fits) in
      (p2, found ∙ ap₂ (λ (d : DirEnt) (b : ℕ). some (d, 8 + b, p2)) same back, at2)

  -- The bytes that entries take up.
  entries_size : List DirEnt → ℕ
  entries_size [] = 0
  entries_size (e ∷ es) = 8 + length e.name + entries_size es

  read_entries_step :
      (sb n : ℕ) (place p1 p2 : Place) (e : DirEnt) (es : List DirEnt) (b c : ℕ)
      → read_entry read sb place ≡ some (e, b, p1)
      → read_entries read n sb p1 ≡ some (es, c, p2)
      → read_entries read (suc n) sb place ≡ some (e ∷ es, b + c, p2)
  unfolding read_entries
  read_entries_step sb n place p1 p2 e es b c h k = rw (h, k) refl

  read_entries_lem :
      (sb : ℕ) (b : List ℕ) (es : List DirEnt) (place : Place) (y : List ℕ)
      → AreEntries sb b es
      → All IsNamed es
      → At place (b ++ y)
      → (next : Place) × (read_entries read (length es) sb place ≡ some (es, length b, next))
        × At next y
  unfolding read_entries entry_bytes
  read_entries_lem sb b [] place y h n at = (place, rw h refl, subst (λ l. At place (l ++ y)) h at)
  read_entries_lem sb b (e ∷ es) place y (d, r', p, i, s, h) (m, n) at =
      let (p1, h1, at1) =
        read_entry_lem e d place (r' ++ y) i m
          (subst (At place) (ap (λ l. l ++ y) p ∙ append_assoc (bytes_of_entry e d) r' y) at) in
      let (p2, h2, at2) = read_entries_lem sb r' es p1 y h n at1 in
      let size : 8 + length e.name + length r' ≡ length b = omega (
        arith,
        ap length p,
        length-append {0} (bytes_of_entry e d) r',
        ap length (take-length e.name),
      ) in
      (
        p2,
        read_entries_step sb (length es) place p1 p2 e es (8 + length e.name) (length r')
              (subst (λ k. read_entry read k place ≡ some (e, 8 + length e.name, p1)) s h1) h2
            ∙ ap (λ k. some (e ∷ es, k, p2)) size,
        at2,
      )

  read_groups_step :
      (rounds size : ℕ) (place p1 p2 : Place) (dirh : List ℕ) (es others : List DirEnt) (n b : ℕ)
      → 0 < size
      → read place 12 ≡ got dirh p1
      → (int_at 0 dirh + 1) % 2 ^ 32 ≡ n
      → too_many n ≡ false
      → read_entries read n (int_at 4 dirh) p1 ≡ some (es, b, p2)
      → read_groups read rounds (size - (12 + b)) p2 ≡ some others
      → read_groups read (suc rounds) size place ≡ some (es ++ others)
  unfolding read_groups
  read_groups_step rounds zero place p1 p2 dirh es others n b p h1 c t h2 h3 = elim p [ ]
  read_groups_step rounds (suc size) place p1 p2 dirh es others n b p h1 c t h2 h3 =
      rw (h1, c, t, h2, h3) refl

  read_groups_lem :
      (b : List ℕ) (gs : List (List DirEnt)) (rounds : ℕ) (place : Place) (y : List ℕ)
      → AreGroups b gs
      → All IsNamed (flat gs)
      → length b ≤ rounds
      → At place (b ++ y)
      → read_groups read rounds (length b) place ≡ some (flat gs)
  unfolding read_groups
  read_groups_lem b [] rounds place y h n p at = rw h refl
  read_groups_lem b (g ∷ gs) zero place y (h, r', e, i, k) n p at =
      absurd (omega (arith, ap length e, length-append {0} h r', ap length i.bytes))
  read_groups_lem b (g ∷ gs) (suc rounds) place y (h, r', e, i, k) n p at =
      let head = header_bytes (length g - 1) i.sb i.ino in
      let len : length b ≡ 12 + length i.body + length r' =
        omega (arith, ap length e, length-append {0} h r', ap length i.bytes) in
      let split : b ++ y ≡ head ++ (i.body ++ (r' ++ y)) =
        ap (λ l. l ++ y) e
        ∙ append_assoc h r' y
        ∙ ap (λ l. l ++ (r' ++ y)) i.bytes
        ∙ append_assoc head i.body (r' ++ y) in
      let (p1, r1, at1) =
        reads place head (i.body ++ (r' ++ y)) (omega arith) (subst (At place) split at) in
      let count : (int_at 0 head + 1) % 2 ^ 32 ≡ length g =
        omega (arith, number-int (length g - 1) (omega (arith, i.fits)), i.some_entries, i.fits) in
      let few : too_many (length g) ≡ false = ground (arith, i.fits) in
      let (p2, r2, at2) =
        read_entries_lem i.sb i.body g p1 (r' ++ y) i.entries (All-left IsNamed g (flat gs) n)
          at1 in
      let sb : int_at 4 head ≡ i.sb = number-int i.sb i.sb_fits in
      let size : length b - (12 + length i.body) ≡ length r' = omega (arith, len) in
      let rest =
        read_groups_lem r' gs rounds p2 y k (All-right IsNamed g (flat gs) n) (omega (arith, len))
          at2 in
      read_groups_step rounds (length b) place p1 p2 head g (flat gs) (length g) (length i.body)
        (omega (arith, len)) r1 count few (ap (λ s. read_entries read (length g) s p1) sb ∙ r2)
        (ap (λ s. read_groups read rounds s p2) size ∙ rest)

  -- A directory is read as it was built, where its names are in order.
  opendir_lem :
      (b : List ℕ) (gs : List (List DirEnt)) (place : Place) (y : List ℕ)
      → AreGroups b gs
      → All IsNamed (flat gs)
      → check_directory (map (λ (e : DirEnt). e.name) (flat gs)) ≡ true
      → length b < 2 ^ 31
      → At place (b ++ y)
      → opendir read (length b + 3) place ≡ some (flat gs)
  unfolding opendir read_groups
  opendir_lem b gs place y h n c p at =
      let size : bytes_wanted (length b + 3) ≡ length b = ground arith in
      let found = read_groups_lem b gs (length b) place y h n (omega arith) at in
      elim (Bool-cases (length b == 0)) [
        | inl t ↦
            let none_left : length b ≡ 0 = ground arith in
            let three : (length b + 3 == 3) ≡ true = ground arith in
            rw three
              (subst (λ k. read_groups read (length b) k place ≡ some (flat gs)) none_left found)
        | inr f ↦
            let more : (length b + 3 == 3) ≡ false = ground arith in rw (more, size, found, c) refl
      ]

  pub opendir-Holds :
      (dir : DirTable.Directory) (es : List DirEnt) (place : Place) (y : List ℕ)
      → Holds dir es
      → All IsNamed es
      → check_directory (map (λ (e : DirEnt). e.name) es) ≡ true
      → length dir.buff < 2 ^ 31
      → At place (put_header dir ++ y)
      → opendir read (length dir.buff + 3) place ≡ some es
  opendir-Holds dir es place y h n c p at =
      let (gs, k, l, e) = Holds-groups dir es h in
      subst (λ m. opendir read (m + 3) place ≡ some es) l
        (opendir_lem (put_header dir) gs place y k (subst (All IsNamed) e n)
            (subst (λ x. check_directory (map (λ (d : DirEnt). d.name) x) ≡ true) e c)
            (omega (arith, l)) at
          ∙ ap some (sym e))
