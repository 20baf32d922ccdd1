-- ===== src/DirTable/Adding.antt =====
-- add_dir of squashfs-tools/mksquashfs.c puts its entry behind those that are there.
use mathlib.Core.Path.{subst}
use mathlib.Core.List.{append_assoc, append-nil}
use Prim.Native.Nat.{min}
use squashfs_tools.Common.{
  ℕ, ◌^◌, ◌<◌, ◌≡◌, refl, sym, ap, ◌∙◌, inl, inr, true, false, none, List, [], ◌∷◌, ◌++◌, length,
  take, arith, length-append, length-take, flat, flat-append, take-length, take-length-take,
  Bool-cases, ◌≢◌,
}
use squashfs_tools.Directory.Sort.{DirEnt}
use squashfs_tools.DirTable.{
  Directory, name_len, init_dir, put_header, wants_header, grow_dir, add_index, open_header,
  entry_bytes, put_entry, add_dir,
}
use squashfs_tools.Format.{inode_blk, inode_offset}
use squashfs_tools.DirTable.Building.{
  IsOpen, IsEntry, IsEntry, AreGroups, put_header-AreGroups, put_entry-IsOpen, open_header-IsOpen,
  length-put_header,
}

-- The directory holds the entries `es`, in their order.
pub data Holds (dir : Directory) (es : List DirEnt) : Type 0 where
  fresh : dir.buff ≡ [] → dir.entry_count ≡ 256 → dir.entry_count_p ≡ none → es ≡ [] → Holds dir es
  built :
      (gs : List (List DirEnt)) (g : List DirEnt)
      → IsOpen dir gs g
      → 0 < length g
      → es ≡ flat gs ++ g
      → Holds dir es

pub init_dir-Holds : (sb n : ℕ) → Holds (init_dir sb n) []
unfolding init_dir
init_dir-Holds sb n = fresh refl refl refl refl

-- The entry that add_dir makes: a name of more than 256 bytes is cut.
abbrev pub entry_of : ℕ → List ℕ → ℕ → DirEnt
entry_of inode name kind = record {
  name = take name_len name;
  start_block = inode_blk inode;
  offset = inode_offset inode;
  kind = kind;
}

grown : Directory → List ℕ → Directory
grown dir name = record dir { size = grow_dir (min name_len (length name)) dir }

-- add_dir, by whether it starts a new header.
add_dir-old :
    (inode n kind : ℕ) (name : List ℕ) (dir : Directory)
    → wants_header (inode_blk inode) n (min name_len (length name)) (grown dir name) ≡ false
    → add_dir inode n name kind dir
      ≡ put_entry (inode_offset inode) n kind (min name_len (length name)) name (grown dir name)
unfolding add_dir grown
add_dir-old inode n kind name dir h = rw h refl

add_dir-new :
    (inode n kind : ℕ) (name : List ℕ) (dir : Directory)
    → wants_header (inode_blk inode) n (min name_len (length name)) (grown dir name) ≡ true
    → add_dir inode n name kind dir
      ≡ put_entry (inode_offset inode) n kind (min name_len (length name)) name (
          open_header
            (inode_blk inode)
            n
            (add_index (min name_len (length name)) name (grown dir name)))
unfolding add_dir grown
add_dir-new inode n kind name dir h = rw h refl

-- Where no header is wanted.
wants_header_not :
    (sb n size : ℕ) (dir : Directory)
    → wants_header sb n size dir ≡ false
    → (dir.entry_count ≢ 256) × (sb ≡ dir.start_block)
unfolding wants_header
wants_header_not sb n size dir h = (λ e. ground arith, ground arith)

inode_blk_fits : (inode : ℕ) → inode_blk inode < 2 ^ 32
unfolding inode_blk
inode_blk_fits inode = omega arith

entry_of-IsEntry :
    (inode kind : ℕ) (name : List ℕ)
    → 0 < length name
    → kind < 2 ^ 16
    → IsEntry (entry_of inode name kind)
unfolding inode_offset
entry_of-IsEntry inode kind name p q = record {
  name_some = omega (arith, length-take {0} name_len name);
  name_fits = omega (arith, length-take {0} name_len name);
  start_block_fits = inode_blk_fits inode;
  offset_fits = omega arith;
  kind_fits = q;
}

-- The bytes of a name that is cut are those of the entry that add_dir makes.
put_entry-entry_of :
    (inode n kind : ℕ) (name : List ℕ) (dir : Directory)
    → put_entry (inode_offset inode) n kind (min name_len (length name)) name dir
      ≡ put_entry (inode_offset inode) n kind (length (take name_len name)) (take name_len name) dir
unfolding put_entry entry_bytes
put_entry-entry_of inode n kind name dir =
    rw
      (
        sym (length-take {0} name_len name),
        take-length-take name_len name,
        take-length (take name_len name),
      )
      refl

grown-IsOpen :
    (dir : Directory) (name : List ℕ) (gs : List (List DirEnt)) (g : List DirEnt)
    → IsOpen dir gs g
    → IsOpen (grown dir name) gs g
unfolding grown
grown-IsOpen dir name gs g o = record {
  done = o.done;
  hole = o.hole;
  body = o.body;
  groups = o.groups;
  buff = o.buff;
  hole_size = o.hole_size;
  entries = o.entries;
  count = o.count;
  fits = o.fits;
  start_block_fits = o.start_block_fits;
  header = o.header;
}

-- The groups that a new header comes behind, and those that write_dir leaves.
pub Holds-groups :
    (dir : Directory) (es : List DirEnt)
    → Holds dir es
    → (gs : List (List DirEnt)) × AreGroups (put_header dir) gs
      × (length (put_header dir) ≡ length dir.buff)
      × (es ≡ flat gs)
unfolding put_header
Holds-groups dir es (fresh p q r s) =
    let none_open : put_header dir ≡ [] = rw (r, put_header) p in
    ([], none_open, rw (none_open, p) refl, s)
Holds-groups dir es (built gs g o p e) = (
  gs ++ g ∷ [],
  put_header-AreGroups dir gs g p o,
  length-put_header dir gs g o,
  e ∙ sym (flat-append gs (g ∷ []) ∙ ap (λ l. flat gs ++ l) (append-nil g)),
)

grown-Holds :
    (dir : Directory) (name : List ℕ) (es : List DirEnt) → Holds dir es → Holds (grown dir name) es
unfolding grown
grown-Holds dir name es (fresh p q r s) = fresh p q r s
grown-Holds dir name es (built gs g o p e) = built gs g (grown-IsOpen dir name gs g o) p e

add_dir-new-Holds :
    (inode n kind : ℕ) (name : List ℕ) (dir : Directory) (es : List DirEnt)
    → 0 < length name
    → kind < 2 ^ 16
    → wants_header (inode_blk inode) n (min name_len (length name)) (grown dir name) ≡ true
    → Holds dir es
    → Holds (add_dir inode n name kind dir) (es ++ entry_of inode name kind ∷ [])
unfolding open_header
add_dir-new-Holds inode n kind name dir es p q t h =
    let (gs, k, l, e) = Holds-groups (grown dir name) es (grown-Holds dir name es h) in
    let size = min name_len (length name) in
    let opened = open_header (inode_blk inode) n (add_index size name (grown dir name)) in
    let o =
      open_header-IsOpen (inode_blk inode) n size name (grown dir name) gs k l
        (inode_blk_fits inode) in
    let o' =
      put_entry-IsOpen opened gs [] (entry_of inode name kind) n o (omega arith)
        (entry_of-IsEntry inode kind name p q) refl in
    subst (λ d. Holds d (es ++ entry_of inode name kind ∷ []))
      (sym (add_dir-new inode n kind name dir t ∙ put_entry-entry_of inode n kind name opened))
      (built gs (entry_of inode name kind ∷ []) o' (omega arith)
        (ap (λ l'. l' ++ entry_of inode name kind ∷ []) e))

add_dir-old-Holds :
    (inode n kind : ℕ) (name : List ℕ) (dir : Directory) (es : List DirEnt)
    → 0 < length name
    → kind < 2 ^ 16
    → wants_header (inode_blk inode) n (min name_len (length name)) (grown dir name) ≡ false
    → Holds dir es
    → Holds (add_dir inode n name kind dir) (es ++ entry_of inode name kind ∷ [])
unfolding grown
add_dir-old-Holds inode n kind name dir es p q f (fresh a b c d) =
    absurd
      ((wants_header_not (inode_blk inode) n (min name_len (length name)) (grown dir name) f).0 b)
add_dir-old-Holds inode n kind name dir es p q f (built gs g o some_entries e) =
    let (room, same) =
      wants_header_not (inode_blk inode) n (min name_len (length name)) (grown dir name) f in
    let o' =
      put_entry-IsOpen (grown dir name) gs g (entry_of inode name kind) n
        (grown-IsOpen dir name gs g o) (omega (arith, o.count, o.fits, room))
        (entry_of-IsEntry inode kind name p q) same in
    subst (λ d. Holds d (es ++ entry_of inode name kind ∷ []))
      (sym (
        add_dir-old inode n kind name dir f
        ∙ put_entry-entry_of inode n kind name (grown dir name)))
      (built gs (g ++ entry_of inode name kind ∷ []) o'
        (omega (arith, length-append {0} g (entry_of inode name kind ∷ [])))
        (ap (λ l'. l' ++ entry_of inode name kind ∷ []) e
          ∙ append_assoc (flat gs) g (entry_of inode name kind ∷ [])))

-- add_dir puts its entry behind those that are there.
pub add_dir-Holds :
    (inode n kind : ℕ) (name : List ℕ) (dir : Directory) (es : List DirEnt)
    → 0 < length name
    → kind < 2 ^ 16
    → Holds dir es
    → Holds (add_dir inode n name kind dir) (es ++ entry_of inode name kind ∷ [])
add_dir-Holds inode n kind name dir es p q h =
    elim (Bool-cases
      (wants_header (inode_blk inode) n (min name_len (length name)) (grown dir name))) [
        | inl t ↦ add_dir-new-Holds inode n kind name dir es p q t h
        | inr f ↦ add_dir-old-Holds inode n kind name dir es p q f h
      ]
