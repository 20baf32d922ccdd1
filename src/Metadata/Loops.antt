-- ===== src/Metadata/Loops.antt =====
-- What the rounds of the loops of get_inode, write_inodes and write_directories of
-- squashfs-tools/mksquashfs.c do to a table.
use mathlib.Core.List.{append-nil}
use Prim.Native.Nat.{min}
use squashfs_tools.Common.{
  ℕ, zero, suc, ◌+◌, ◌-◌, ◌*◌, ◌≤◌, ◌<◌, ◌≡◌, refl, sym, ◌∙◌, inl, inr, Bool, true, false, some, [],
  ◌∷◌, length, take, ◌==◌, leb, arith, length-take, length-drop, take-append-drop, Bool-cases,
}
use squashfs_tools.Format.{metadata_size}
use squashfs_tools.Metadata.{Compressor, Writer, put_block, put_full, put_rest}
use squashfs_tools.Metadata.Blocks.{IsLossless, put_block_lem}
use squashfs_tools.Metadata.Filling.{Runs, Runs-refl, Runs-trans}

-- A full block leaves the cache.
pub put_full_block :
    (c : Compressor) (noi : Bool) (w : Writer)
    → IsLossless c
    → metadata_size ≤ length w.cache
    → (w' : Writer) × (put_block c noi metadata_size w ≡ some w')
      × (length w'.cache ≡ length w.cache - metadata_size)
      × Runs c w [] w'
put_full_block c noi w l p =
    let (w', e, h, table, cache, good) =
      put_block_lem c noi metadata_size w l (omega arith) (omega arith) p in
    (
      w',
      h,
      rw cache (length-drop metadata_size w.cache),
      record {
        blocks = take metadata_size w.cache ∷ [];
        bytes = e;
        table = table;
        packed = (e, [], sym (append-nil e), good, refl);
        full = (omega (arith, length-take {0} metadata_size w.cache), tt);
        kept =
            rw (append-nil, cache) (sym (rw append-nil (take-append-drop metadata_size w.cache)));
      },
    )

put_full_stop :
    (c : Compressor) (noi : Bool) (rounds : ℕ) (w : Writer)
    → leb metadata_size (length w.cache) ≡ false
    → put_full c noi (suc rounds) w ≡ some w
unfolding put_full
put_full_stop c noi rounds w t = rw (t, put_full) refl

put_full_step :
    (c : Compressor) (noi : Bool) (rounds : ℕ) (w v : Writer)
    → leb metadata_size (length w.cache) ≡ true
    → put_block c noi metadata_size w ≡ some v
    → put_full c noi (suc rounds) w ≡ put_full c noi rounds v
unfolding put_full
put_full_step c noi rounds w v t h = rw (t, h, put_full) refl

pub put_rest_stop :
    (c : Compressor) (noi : Bool) (rounds : ℕ) (w : Writer)
    → (length w.cache == 0) ≡ true
    → put_rest c noi (suc rounds) w ≡ some w
unfolding put_rest
put_rest_stop c noi rounds w t = rw (t, put_rest) refl

pub put_rest_step :
    (c : Compressor) (noi : Bool) (rounds avail : ℕ) (w v : Writer)
    → (length w.cache == 0) ≡ false
    → min metadata_size (length w.cache) ≡ avail
    → put_block c noi avail w ≡ some v
    → put_rest c noi (suc rounds) w ≡ put_rest c noi rounds v
unfolding put_rest
put_rest_step c noi rounds avail w v t m h = rw (t, m, h, put_rest) refl

pub put_rest_empty :
    (c : Compressor) (noi : Bool) (rounds : ℕ) (w : Writer)
    → w.cache ≡ []
    → put_rest c noi rounds w ≡ some w
unfolding put_rest
put_rest_empty c noi zero w e = refl
put_rest_empty c noi (suc rounds) w e = put_rest_stop c noi rounds w (rw e refl)

-- The loop of get_inode ends with less than a block in the cache.
pub put_full_lem :
    (c : Compressor) (noi : Bool) (rounds : ℕ) (w : Writer)
    → IsLossless c
    → length w.cache < metadata_size * (rounds + 1)
    → (w' : Writer) × (put_full c noi rounds w ≡ some w')
      × (length w'.cache < metadata_size)
      × Runs c w [] w'
unfolding put_full
put_full_lem c noi zero w l p = (w, refl, omega arith, Runs-refl c w)
put_full_lem c noi (suc rounds) w l p = elim (Bool-cases (leb metadata_size (length w.cache))) [
  | inl t ↦
      let (v, h, n, r) = put_full_block c noi w l (ground arith) in
      let (u, h', n', r') = put_full_lem c noi rounds v l (omega (arith, n)) in
      (u, put_full_step c noi rounds w v t h ∙ h', n', Runs-trans c w [] v [] u r r')
  | inr f ↦ (w, put_full_stop c noi rounds w f, ground arith, Runs-refl c w)
]
