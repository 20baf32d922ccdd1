-- ===== src/DirTable/Building.antt =====
-- What add_dir of squashfs-tools/mksquashfs.c has built: headers, each with its entries.
use mathlib.Core.Path.{subst}
use mathlib.Core.List.{append_assoc, append-nil}
use squashfs_tools.Common.{
  ℕ, ◌+◌, ◌-◌, ◌%◌, ◌^◌, ◌≤◌, ◌<◌, ◌≡◌, refl, sym, ap, ap₂, ◌∙◌, inl, inr, ◌&&◌, some, List, [],
  ◌∷◌, ◌++◌, length, drop, replicate, arith, length-append, take-length-append, drop-length-append,
  Bool-cases,
}
use squashfs_tools.Directory.Sort.{DirEnt}
use squashfs_tools.DirTable.{
  Directory, name_len, header_size, poke, header_bytes, put_header, wants_index, is_set, add_index,
  open_header, entry_bytes, put_entry,
}

-- An entry that add_dir is given: the fields have the sizes of their types, and the name those that
-- are not cut.
pub record IsEntry (e : DirEnt) : Type 0 where
  pub name_some : 0 < length e.name
  pub name_fits : length e.name ≤ name_len
  pub start_block_fits : e.start_block < 2 ^ 32
  pub offset_fits : e.offset < 2 ^ 16
  pub kind_fits : e.kind < 2 ^ 16

abbrev pub bytes_of_entry : DirEnt → ℕ → List ℕ
bytes_of_entry e delta = entry_bytes e.offset delta e.kind (length e.name) e.name

-- The bytes of entries that share a start block.
abbrev pub AreEntries : ℕ → List ℕ → List DirEnt → Type 0
AreEntries sb b [] = b ≡ []
AreEntries sb b (e ∷ es) =
    (delta : ℕ) × (r : List ℕ) × (b ≡ bytes_of_entry e delta ++ r)
    × IsEntry e
    × (e.start_block ≡ sb)
    × AreEntries sb r es

AreEntries-append :
    (sb : ℕ) (b : List ℕ) (es : List DirEnt) (e : DirEnt) (delta : ℕ)
    → AreEntries sb b es
    → IsEntry e
    → e.start_block ≡ sb
    → AreEntries sb (b ++ bytes_of_entry e delta) (es ++ e ∷ [])
AreEntries-append sb b [] e delta h p q =
    (delta, [], rw h (sym (append-nil (bytes_of_entry e delta))), p, q, refl)
AreEntries-append sb b (x ∷ es) e delta (d, r, k, i, s, h) p q = (
  d,
  r ++ bytes_of_entry e delta,
  rw k (append_assoc (bytes_of_entry x d) r (bytes_of_entry e delta)),
  i,
  s,
  AreEntries-append sb r es e delta h p q,
)

-- A header with the entries that it counts.
pub record IsGroup (b : List ℕ) (g : List DirEnt) : Type 0 where
  pub sb : ℕ
  pub ino : ℕ
  pub body : List ℕ
  pub bytes : b ≡ header_bytes (length g - 1) sb ino ++ body
  pub entries : AreEntries sb body g
  pub some_entries : 0 < length g
  pub fits : length g ≤ 256
  pub sb_fits : sb < 2 ^ 32

abbrev pub AreGroups : List ℕ → List (List DirEnt) → Type 0
AreGroups b [] = b ≡ []
AreGroups b (g ∷ gs) = (h : List ℕ) × (r : List ℕ) × (b ≡ h ++ r) × IsGroup h g × AreGroups r gs

AreGroups-append :
    (b h : List ℕ) (gs : List (List DirEnt)) (g : List DirEnt)
    → AreGroups b gs
    → IsGroup h g
    → AreGroups (b ++ h) (gs ++ g ∷ [])
AreGroups-append b h [] g k p = (h, [], rw k (sym (append-nil h)), p, refl)
AreGroups-append b h (x ∷ gs) g (b1, r, e, i, k) p =
    (b1, r ++ h, rw e (append_assoc b1 r h), i, AreGroups-append r h gs g k p)

-- The header of `g` is not written yet; `gs` stand in front of it.
pub record IsOpen (dir : Directory) (gs : List (List DirEnt)) (g : List DirEnt) : Type 0 where
  pub done : List ℕ
  pub hole : List ℕ
  pub body : List ℕ
  pub groups : AreGroups done gs
  pub buff : dir.buff ≡ done ++ (hole ++ body)
  pub hole_size : length hole ≡ header_size
  pub entries : AreEntries dir.start_block body g
  pub count : dir.entry_count ≡ length g
  pub fits : length g ≤ 256
  pub start_block_fits : dir.start_block < 2 ^ 32
  pub header : dir.entry_count_p ≡ some (length done)

poke-append :
    (a b b' c : List ℕ) → length b ≡ length b' → poke (length a) b' (a ++ (b ++ c)) ≡ a ++ (b' ++ c)
poke-append a b b' c h =
    let far : length a + length b' ≡ length (a ++ b) = omega (arith, h, length-append {0} a b) in
    let cut : drop (length a + length b') (a ++ (b ++ c)) ≡ c = rw far (
      subst (λ l. drop (length (a ++ b)) l ≡ c) (append_assoc a b c)
        (drop-length-append (a ++ b) c)) in
    ap₂ (λ x y. x ++ (b' ++ y)) (take-length-append a (b ++ c)) cut

-- The header is written: nothing is left open.
pub put_header-AreGroups :
    (dir : Directory) (gs : List (List DirEnt)) (g : List DirEnt)
    → 0 < length g
    → IsOpen dir gs g
    → AreGroups (put_header dir) (gs ++ g ∷ [])
unfolding put_header
put_header-AreGroups dir gs g some_entries o =
    let head = header_bytes (length g - 1) dir.start_block dir.inode_number in
    let b : put_header dir ≡ o.done ++ (head ++ o.body) =
      rw (o.header, put_header)
        (rw (o.count, o.buff) (poke-append o.done o.hole head o.body o.hole_size)) in
    subst (λ l. AreGroups l (gs ++ g ∷ [])) (sym b)
      (AreGroups-append o.done (head ++ o.body) gs g o.groups (record {
        sb = dir.start_block;
        ino = dir.inode_number;
        body = o.body;
        bytes = refl;
        entries = o.entries;
        some_entries = some_entries;
        fits = o.fits;
        sb_fits = o.start_block_fits;
      }))

-- The new entry with the header that is open, or was just opened.
pub put_entry-IsOpen :
    (dir : Directory) (gs : List (List DirEnt)) (g : List DirEnt) (e : DirEnt) (inode_number : ℕ)
    → IsOpen dir gs g
    → length g < 256
    → IsEntry e
    → e.start_block ≡ dir.start_block
    → IsOpen (put_entry e.offset inode_number e.kind (length e.name) e.name dir) gs (g ++ e ∷ [])
unfolding put_entry
put_entry-IsOpen dir gs g e n o p i s =
    let delta = (n + 2 ^ 32 - dir.inode_number) % 2 ^ 16 in
    record {
      done = o.done;
      hole = o.hole;
      body = o.body ++ bytes_of_entry e delta;
      groups = o.groups;
      buff = rw o.buff (
          append_assoc o.done (o.hole ++ o.body) (bytes_of_entry e delta)
          ∙ ap (λ l. o.done ++ l) (append_assoc o.hole o.body (bytes_of_entry e delta)));
      hole_size = o.hole_size;
      entries = AreEntries-append dir.start_block o.body g e delta o.entries i s;
      count = omega (arith, o.count, length-append {0} g (e ∷ []));
      fits = omega (arith, length-append {0} g (e ∷ []));
      start_block_fits = o.start_block_fits;
      header = o.header;
    }

-- The index leaves the bytes alone.
add_index_same :
    (size : ℕ) (name : List ℕ) (dir : Directory)
    → (put_header (add_index size name dir) ≡ put_header dir)
      × ((add_index size name dir).buff ≡ dir.buff)
unfolding add_index put_header
add_index_same size name dir =
    elim (Bool-cases (is_set dir.entry_count_p && wants_index size dir)) [
      | inl t ↦ rw (t, add_index) (refl, refl)
      | inr f ↦ rw (f, add_index) (refl, refl)
    ]

pub open_header-IsOpen :
    (sb n size : ℕ) (name : List ℕ) (dir : Directory) (gs : List (List DirEnt))
    → AreGroups (put_header dir) gs
    → length (put_header dir) ≡ length dir.buff
    → sb < 2 ^ 32
    → IsOpen (open_header sb n (add_index size name dir)) gs []
unfolding open_header
open_header-IsOpen sb n size name dir gs h k p =
    let (same, same_buff) = add_index_same size name dir in
    record {
      done = put_header dir;
      hole = replicate header_size 0;
      body = [];
      groups = h;
      buff = rw same refl;
      hole_size = refl;
      entries = refl;
      count = refl;
      fits = omega arith;
      start_block_fits = p;
      header = ap some (ap length same_buff ∙ sym k);
    }

pub length-put_header :
    (dir : Directory) (gs : List (List DirEnt)) (g : List DirEnt)
    → IsOpen dir gs g
    → length (put_header dir) ≡ length dir.buff
unfolding put_header
length-put_header dir gs g o =
    let head = header_bytes (length g - 1) dir.start_block dir.inode_number in
    let b : put_header dir ≡ o.done ++ (head ++ o.body) =
      rw (o.header, put_header)
        (rw (o.count, o.buff) (poke-append o.done o.hole head o.body o.hole_size)) in
    rw (b, o.buff)
      (omega (
        arith,
        length-append {0} o.done (head ++ o.body),
        length-append {0} o.done (o.hole ++ o.body),
        length-append {0} o.hole o.body,
        length-append {0} head o.body,
        o.hole_size,
      ))
