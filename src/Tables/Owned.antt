-- ===== src/Tables/Owned.antt =====
-- The indexes that get_uid and get_guid of squashfs-tools/mksquashfs.c gave, in the table that
-- read_id_table of unsquash-4.c gives.
use mathlib.Core.Path.{subst}
use mathlib.Core.List.{append_assoc, append-nil}
use squashfs_tools.Common.{
  ℕ, ◌+◌, ◌%◌, ◌^◌, ◌≤◌, ◌<◌, ◌≡◌, inl, inr, refl, sym, ap, ◌∙◌, Bool, Option, none, some, List, [],
  ◌∷◌, ◌++◌, length, get_elem?, arith, All, All-append, All-map, length-append,
}
use squashfs_tools.Tables.Filed.{IsFiled, length-ids_of, get_elem?-append, get_elem?-within}
use squashfs_tools.Metadata.{Compressor}
use squashfs_tools.Metadata.Blocks.{IsLossless}
use squashfs_tools.Metadata.Fetching.{plain_image}
use squashfs_tools.Tables.{write_id_table}
use squashfs_tools.Tables.Load.{read_id_table}
use squashfs_tools.Tables.Roundtrip.{IsWithin, write_id_table-read_id_table}
use squashfs_tools.Tables.Ids.{no_ids, Ids, ids_of, squashfs_ids, Owner, number_of, get_owners}
use squashfs_tools.Tables.Owners.{get_owner_lem}

-- At each index that was given stands the id that was asked for.
abbrev pub HaveIds : List ℕ → List Owner → List ℕ → Type 0
HaveIds ids [] [] = Unit
HaveIds ids (o ∷ os) (i ∷ is) = (get_elem? ids i ≡ some (number_of o)) × HaveIds ids os is
HaveIds ids _ _ = ⊥

pub get_owners_lem :
    (os : List Owner) (s : Ids)
    → IsFiled s
    → length s.id_table + length os ≤ squashfs_ids
    → All (λ o. number_of o < 2 ^ 32) os
    → (is : List ℕ) × (s' : Ids) × (more : List ℕ) × (get_owners os s ≡ some (is, s'))
      × (ids_of s'.id_table ≡ ids_of s.id_table ++ more)
      × (length more ≤ length os)
      × All (λ n. n < 2 ^ 32) more
      × IsFiled s'
      × HaveIds (ids_of s'.id_table) os is
unfolding get_owners
get_owners_lem [] s w n p =
    ([], s, [], refl, sym (append-nil (ids_of s.id_table)), omega arith, tt, w, tt)
get_owners_lem (o ∷ os) s w n (p, ps) = elim (get_owner_lem o s w) [
  | inl (e, (full, absent)) ↦ absurd (omega (arith, full))
  | inr (i, s', e, h) ↦
      let room : length s'.id_table + length os ≤ squashfs_ids = omega (
        arith,
        sym (length-ids_of s'.id_table),
        ap length h.ids,
        length-append {0} (ids_of s.id_table) h.more,
        length-ids_of s.id_table,
        h.few,
      ) in
      let (is, s'', more, e', ids, few, small, w', have) = get_owners_lem os s' h.filed room ps in
      let kept : get_elem? (ids_of s''.id_table) i ≡ some (number_of o) = rw ids (
        get_elem?-append (ids_of s'.id_table) more i
          (get_elem?-within (ids_of s'.id_table) i (number_of o) h.here)
        ∙ h.here) in
      (
        i ∷ is,
        s'',
        h.more ++ more,
        rw (e, e') refl,
        ids ∙ ap (λ l. l ++ more) h.ids ∙ append_assoc (ids_of s.id_table) h.more more,
        omega (arith, length-append {0} h.more more, h.few),
        All-append (λ n. n < 2 ^ 32) h.more more
            (All-map (λ n. n ≡ number_of o) (λ n. n < 2 ^ 32) h.more (λ n e. omega (arith, e))
              h.same)
            small,
        w',
        (kept, have),
      )
]

some_ids : (os : List Owner) (is ids : List ℕ) → 0 < length os → HaveIds ids os is → 0 < length ids
some_ids [] is ids h k = elim h [ ]
some_ids (o ∷ os) (i ∷ is) ids h (k, ks) = omega (arith, get_elem?-within ids i (number_of o) k)
some_ids (o ∷ os) [] ids h k = elim k [ ]

pub no_ids-IsFiled : IsFiled no_ids
no_ids-IsFiled = record { inside = λ hash. tt; found = λ i id h. absurd (cc) }

-- The image with the table of the ids has less than 2 ^ 64 bytes.
abbrev pub IsWithinTable : Compressor → Bool → List ℕ → Option (List ℕ × Ids) → Type 0
IsWithinTable c uncompressed image none = Unit
IsWithinTable c uncompressed image (some r) =
    IsWithin (write_id_table c uncompressed (ids_of r.1.id_table) image)

-- For a compressor that does not fail and gives back what it compressed: owners and groups, at
-- least one and less than 65536, are asked for in any order, and no call of get_uid or get_guid
-- fails. The table of the ids that came together is written by write_id_table to an image that
-- with it has less than 2 ^ 64 bytes. Whatever is put behind it, read_id_table, with the number
-- of ids as an unsigned short, finds it, gives its first block's place, and has at each index
-- that was given the id that was asked for.
pub get_owners-read_id_table :
    (c : Compressor) (uncompressed : Bool) (os : List Owner) (image after : List ℕ)
    → IsLossless c
    → 0 < length os
    → length os < squashfs_ids
    → All (λ o. number_of o < 2 ^ 32) os
    → IsWithinTable c uncompressed image (get_owners os no_ids)
    → (is : List ℕ) × (s : Ids) × (start : ℕ) × (whole ids : List ℕ) × (get_owners os no_ids
        ≡ some (is, s))
      × (write_id_table c uncompressed (ids_of s.id_table) image ≡ some (start, whole))
      × (read_id_table c
            (plain_image (whole ++ after))
            (length s.id_table % 2 ^ 16)
            start
            (length whole)
          ≡ some (ids, length image))
      × HaveIds ids os is
get_owners-read_id_table c u os image after l some_owner room small w =
    let (is, s, more, h, ids, few, fit, filed, have) =
      get_owners_lem os no_ids no_ids-IsFiled (omega (arith, room)) small in
    let within : IsWithin (write_id_table c u (ids_of s.id_table) image) =
      subst (IsWithinTable c u image) h w in
    let (start, whole, h', r) =
      write_id_table-read_id_table c u (ids_of s.id_table) image after l
        (subst (All (λ n. n < 2 ^ 32)) (sym ids) fit)
        (some_ids os is (ids_of s.id_table) some_owner have) within in
    let word : length s.id_table % 2 ^ 16 ≡ length (ids_of s.id_table) =
      omega (arith, length-ids_of s.id_table, ap length ids, few, room) in
    (
      is,
      s,
      start,
      whole,
      ids_of s.id_table,
      h,
      h',
      subst
          (λ n.
            read_id_table c (plain_image (whole ++ after)) n start (length whole)
            ≡ some (ids_of s.id_table, length image))
          (sym word) r,
      have,
    )
