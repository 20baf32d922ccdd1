-- ===== src/Inode/Cases.antt =====
-- Regular files, directories, symbolic links and the other sorts of inodes, written by create_inode of
-- squashfs-tools/mksquashfs.c and read by read_inode of squashfs-tools/unsquash-4.c.
use mathlib.Core.Path.{subst}
use mathlib.Core.List.{append_assoc}
use squashfs_tools.Common.{
  ℕ, ◌^◌, ◌<◌, ◌≡◌, refl, sym, ap, ap₂, ◌∙◌, inl, inr, false, not, ◌||◌, Option, none, some, List,
  [], ◌++◌, length, take, if◌then◌else◌, ◌==◌, ltb, leb, arith, Bool-cases,
}
use squashfs_tools.Format.Fields.{ints, field, int_at, number-int}
use squashfs_tools.Inode.{
  Kind, dir, file, symlink, ldir, lreg, lsymlink, invalid, is_xattr, Source, Times, choose_kind,
  base_bytes, index_bytes, file_bytes, lreg_bytes, dir_bytes, ldir_bytes, body_bytes, create_inode,
}
use squashfs_tools.Inode.Laws.{Fits, with_base, with_rest, read_header}
use squashfs_tools.Inode.ReadInode.{
  Inode, Super, size_of, set_symlink, xattr_behind, set_kind, read_inode,
}
use squashfs_tools.Metadata.Reader.{Place, bytes_of}
use squashfs_tools.Metadata.ByteReader.{ByteReader}
use squashfs_tools.Inode.Roundtrip.{
  Suits, no_xattr, set_dir-with_rest, set_ldir-with_rest, set_file-with_rest, set_lreg-with_rest,
  set_symlink-with_rest,
}

-- What create_inode wrote.
abbrev pub bytes_or_none : Option (List ℕ) → List ℕ
bytes_or_none none = []
bytes_or_none (some b) = b

module _ (r : ByteReader) where
  open r use {read, At, reads}

  -- The block list of a regular file is behind its header.
  abbrev pub Behind : Kind → Source → List ℕ → Place → Type 0
  Behind file s y next = At next (ints (take s.offset s.block_list) ++ y)
  Behind other s y next = Unit

  -- read_inode gives what the source of the inode says.
  abbrev pub IsRead : Times → Super → List ℕ → Kind → Source → Inode → Place → List ℕ → Type 0
  IsRead opts super id_table kind s i place y =
      (next : Place) × (read_inode read super id_table place i
        ≡ some (with_rest super kind s next (with_base opts id_table (choose_kind kind s) s i)))
      × Behind kind s y next

  abbrev pub Returns : Times → Super → List ℕ → Kind → Source → Inode → Place → List ℕ → Type 0
  Returns opts super id_table kind s i place y =
      (create_inode opts kind s ≡ some (bytes_or_none (create_inode opts kind s)))
      × IsRead opts super id_table kind s i place y

  -- A header of the sort `k`, with what stands behind it.
  unfoldable pub Parsed : Super → Kind → Kind → Source → List ℕ → List ℕ → List ℕ → Type 0
  Parsed super kind k s h rest y =
      (next : Place) (j : Inode)
      → At next (rest ++ y)
      → (set_kind read super k h next j ≡ some (with_rest super kind s next j))
        × Behind kind s y next

  assemble :
      (opts : Times) (super : Super) (id_table : List ℕ) (kind k : Kind) (s : Source) (i : Inode)
      (place : Place) (fields rest y : List ℕ)
      → Fits opts s
      → choose_kind kind s ≡ k
      → body_bytes k s ≡ some (fields, rest)
      → length (base_bytes opts k s ++ fields) ≡ size_of k
      → Parsed super kind k s (base_bytes opts k s ++ fields) rest y
      → At place (bytes_or_none (create_inode opts kind s) ++ y)
      → Returns opts super id_table kind s i place y
  unfolding create_inode Parsed
  assemble opts super id_table kind k s i place fields rest y f choice body size parsed at =
      let base = base_bytes opts k s in
      let made : create_inode opts kind s ≡ some (base ++ (fields ++ rest)) =
        rw (choice, body) refl in
      let split : bytes_or_none (create_inode opts kind s) ++ y ≡ base ++ (fields ++ (rest ++ y)) =
        ap (λ o. bytes_or_none o ++ y) made
        ∙ append_assoc base (fields ++ rest) y
        ∙ ap (λ l. base ++ l) (append_assoc fields rest y) in
      let (next, found, at') =
        read_header r opts super id_table k s place i fields (rest ++ y) f size
          (subst (At place) split at) in
      let (seen, behind) = parsed next (with_base opts id_table k s i) at' in
      (
        made ∙ ap (λ o. some (bytes_or_none o)) (sym made),
        (
          next,
          found
              ∙ seen
              ∙ ap (λ c. some (with_rest super kind s next (with_base opts id_table c s i)))
                  (sym choice),
          behind,
        ),
      )

  pub dir_roundtrip :
      (opts : Times) (super : Super) (id_table : List ℕ) (s : Source) (i : Inode) (place : Place)
      (y : List ℕ)
      → Fits opts s
      → Suits dir s
      → At place (bytes_or_none (create_inode opts dir s) ++ y)
      → Returns opts super id_table dir s i place y
  unfolding choose_kind body_bytes Parsed set_kind
  dir_roundtrip opts super id_table s i place y f (p, q, b, h) at =
      elim (Bool-cases (s.dir_is_ldir || is_xattr s.xattr)) [
        | inl t ↦
            let small : leb (2 ^ 32) s.byte_size ≡ false = ground arith in
            assemble opts super id_table dir ldir s i place (ldir_bytes s) (index_bytes s.index) y f
              (rw t refl) (rw small refl) refl
              (λ next j k. (ap some (set_ldir-with_rest opts super s next j f.xattr p q b), tt)) at
        | inr e ↦
            let not_long : s.dir_is_ldir ≡ false = ground arith in
            let none_xattr : is_xattr s.xattr ≡ false = ground arith in
            assemble opts super id_table dir dir s i place (dir_bytes s) [] y f (rw e refl) refl
              refl
              (λ next j k. (
                ap some (
                    set_dir-with_rest opts super s next j (no_xattr s none_xattr) p q
                      (elim h [ inl l ↦ cc | inr small ↦ small ])),
                tt,
              ))
              at
      ]

  pub file_roundtrip :
      (opts : Times) (super : Super) (id_table : List ℕ) (s : Source) (i : Inode) (place : Place)
      (y : List ℕ)
      → Fits opts s
      → At place (bytes_or_none (create_inode opts file s) ++ y)
      → Returns opts super id_table file s i place y
  unfolding choose_kind body_bytes Parsed set_kind
  file_roundtrip opts super id_table s i place y f at =
      let long =
        ltb 1 s.nlink
        || leb (2 ^ 32) s.byte_size
        || leb (2 ^ 32) s.start_block
        || not (s.sparse == 0)
        || is_xattr s.xattr in
      elim (Bool-cases long) [
        | inl t ↦
            assemble opts super id_table file lreg s i place (lreg_bytes s)
              (ints (take s.offset s.block_list)) y f (rw t refl) refl refl
              (λ next j k. (ap some (set_lreg-with_rest opts super s next j f), k)) at
        | inr e ↦
            let none_xattr : is_xattr s.xattr ≡ false = ground arith in
            let dense : s.sparse ≡ 0 = ground arith in
            let near : s.start_block < 2 ^ 32 = ground arith in
            let small : s.byte_size < 2 ^ 32 = ground arith in
            assemble opts super id_table file file s i place (file_bytes s)
              (ints (take s.offset s.block_list)) y f (rw e refl) refl refl
              (λ next j k. (
                ap some (
                    set_file-with_rest opts super s next j f (no_xattr s none_xattr) dense near
                      small),
                k,
              ))
              at
      ]

  short_read :
      (opts : Times) (super : Super) (s : Source) (next : Place) (j : Inode) (y : List ℕ)
      → 0 < length s.target
      → length s.target < 2 ^ 32
      → s.xattr ≡ invalid
      → At next (s.target ++ y)
      → set_kind read super symlink
          (base_bytes opts symlink s ++ (field 4 s.nlink ++ field 4 (length s.target)))
          next
          j
        ≡ some (with_rest super symlink s next j)
  unfolding set_kind
  short_read opts super s next j y p q x at =
      let h = base_bytes opts symlink s ++ (field 4 s.nlink ++ field 4 (length s.target)) in
      let (p1, r1, at1) = reads next s.target y p at in
      let size : int_at 20 h ≡ length s.target = number-int (length s.target) q in
      let got_it : bytes_of (read next (int_at 20 h)) ≡ some (s.target, p1) =
        ap (λ n. bytes_of (read next n)) size ∙ ap bytes_of r1 in
      rw got_it (ap some (set_symlink-with_rest opts super s next j q x))

  xattr_behind_lem :
      (place next : Place) (i : Inode) (bytes : List ℕ)
      → bytes_of (read place 4) ≡ some (bytes, next)
      → xattr_behind read place i ≡ record i { xattr = int_at 0 bytes }
  xattr_behind_lem place next i bytes h = rw (h, xattr_behind) refl

  lsymlink_read :
      (opts : Times) (super : Super) (s : Source) (next : Place) (j : Inode) (y : List ℕ)
      → Fits opts s
      → 0 < length s.target
      → length s.target < 2 ^ 32
      → At next ((s.target ++ field 4 s.xattr) ++ y)
      → set_kind read super lsymlink
          (base_bytes opts lsymlink s ++ (field 4 s.nlink ++ field 4 (length s.target)))
          next
          j
        ≡ some (with_rest super symlink s next j)
  unfolding set_kind with_rest
  lsymlink_read opts super s next j y f p q at =
      let h = base_bytes opts lsymlink s ++ (field 4 s.nlink ++ field 4 (length s.target)) in
      let (p1, r1, at1) =
        reads next s.target (field 4 s.xattr ++ y) p
          (subst (At next) (append_assoc s.target (field 4 s.xattr) y) at) in
      let (p2, r2, at2) = reads p1 (field 4 s.xattr) y (omega arith) at1 in
      let size : int_at 20 h ≡ length s.target = number-int (length s.target) q in
      let got_it : bytes_of (read next (int_at 20 h)) ≡ some (s.target, p1) =
        ap (λ n. bytes_of (read next n)) size ∙ ap bytes_of r1 in
      let xattr : bytes_of (read p1 4) ≡ some (field 4 s.xattr, p2) = ap bytes_of r2 in
      rw got_it (
        ap some (xattr_behind_lem p1 p2 (set_symlink h s.target j) (field 4 s.xattr) xattr)
        ∙ ap₂ (λ n x. some (record j { target = s.target; data_size = n; xattr = x })) size
            (number-int s.xattr f.xattr))

  pub symlink_roundtrip :
      (opts : Times) (super : Super) (id_table : List ℕ) (s : Source) (i : Inode) (place : Place)
      (y : List ℕ)
      → Fits opts s
      → Suits symlink s
      → At place (bytes_or_none (create_inode opts symlink s) ++ y)
      → Returns opts super id_table symlink s i place y
  unfolding choose_kind body_bytes Parsed set_kind
  symlink_roundtrip opts super id_table s i place y f (p, q) at =
      elim (Bool-cases (is_xattr s.xattr)) [
        | inl t ↦
            assemble opts super id_table symlink lsymlink s i place
              (field 4 s.nlink ++ field 4 (length s.target)) (s.target ++ field 4 s.xattr) y f
              (rw t refl) refl refl (λ next j k. (lsymlink_read opts super s next j y f p q k, tt))
              at
        | inr e ↦
            assemble opts super id_table symlink symlink s i place
              (field 4 s.nlink ++ field 4 (length s.target)) s.target y f (rw e refl) refl refl
              (λ next j k. (short_read opts super s next j y p q (no_xattr s e) k, tt)) at
      ]

  -- The device files, the pipes and the sockets: two sorts of each.
  pub fixed_roundtrip :
      (opts : Times) (super : Super) (id_table : List ℕ) (kind long : Kind) (s : Source) (i : Inode)
      (place : Place) (y fields rest fields' : List ℕ)
      → Fits opts s
      → choose_kind kind s ≡ (if is_xattr s.xattr then long else kind)
      → body_bytes kind s ≡ some (fields, rest)
      → body_bytes long s ≡ some (fields', [])
      → length (base_bytes opts kind s ++ fields) ≡ size_of kind
      → length (base_bytes opts long s ++ fields') ≡ size_of long
      → (s.xattr ≡ invalid → Parsed super kind kind s (base_bytes opts kind s ++ fields) rest y)
      → Parsed super kind long s (base_bytes opts long s ++ fields') [] y
      → At place (bytes_or_none (create_inode opts kind s) ++ y)
      → Returns opts super id_table kind s i place y
  fixed_roundtrip opts super id_table kind long s i place y fields rest fields' f choice b b' n n'
        short_case long_case at =
      elim (Bool-cases (is_xattr s.xattr)) [
        | inl t ↦
            assemble opts super id_table kind long s i place fields' [] y f (rw choice (rw t refl))
              b' n' long_case at
        | inr e ↦
            assemble opts super id_table kind kind s i place fields rest y f (rw choice (rw e refl))
              b n (short_case (no_xattr s e)) at
      ]
