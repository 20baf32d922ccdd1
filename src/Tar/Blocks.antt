-- ===== src/Tar/Blocks.antt =====
-- A long name is read in whole blocks of the file.
use mathlib.Core.List.{append-nil}
use squashfs_tools.Common.{
  ℕ, zero, suc, ◌+◌, ◌-◌, ◌*◌, ◌/◌, ◌≤◌, ◌≡◌, refl, ap, ap₂, ◌∙◌, List, [], ◌∷◌, ◌++◌, arith,
  if◌then◌else◌, take, drop, length, length-take, length-drop, some, ltb, Bool-cases, inl, inr,
}
use squashfs_tools.Tar.{read_blocks}

-- The bytes of the blocks that `size` bytes take up.
abbrev pub round_up : ℕ → ℕ
round_up size = (size + 511) / 512 * 512

take-append_take :
    (m n : ℕ) (s t : List ℕ) → m ≤ n → n ≤ length s → take m (take n s ++ t) ≡ take m s
take-append_take zero n s t h k = refl
take-append_take (suc m) zero s t h k = absurd (omega (arith, h))
take-append_take (suc m) (suc n) [] t h k = absurd (omega (arith, k))
take-append_take (suc m) (suc n) (x ∷ s) t h k =
    ap (λ l. x ∷ l) (take-append_take m n s t (omega arith) (omega arith))

suc_add : (m n : ℕ) → suc m + n ≡ suc (m + n)
suc_add m n = omega arith

take-add : (m n : ℕ) (s : List ℕ) → take m s ++ take n (drop m s) ≡ take (m + n) s
take-add zero n s = ground arith
take-add (suc m) zero [] = rw (suc_add m 0) refl
take-add (suc m) (suc n) [] = rw (suc_add m (suc n)) refl
take-add (suc m) n (x ∷ s) = rw (suc_add m n) (ap (λ l. x ∷ l) (take-add m n s))

drop-drop : (m n : ℕ) (s : List ℕ) → drop n (drop m s) ≡ drop (m + n) s
drop-drop zero n s = ground arith
drop-drop (suc m) zero [] = rw (suc_add m 0) refl
drop-drop (suc m) (suc n) [] = rw (suc_add m (suc n)) refl
drop-drop (suc m) n (x ∷ s) = rw (suc_add m n) (drop-drop m n s)

-- What one block gives, and what is left to do behind it.
one_block :
    (size : ℕ) (input rest : List ℕ)
    → 512 ≤ length input
    → take (if ltb 512 (suc size) then 512 else suc size) (take 512 input ++ rest)
        ++ take (suc size - 512) (drop 512 input)
      ≡ take (suc size) input
one_block size input rest k = elim (Bool-cases (ltb 512 (suc size))) [
  | inl more ↦
      let e : 512 + (suc size - 512) ≡ suc size = ground arith in
      rw more (
        ap (λ l. l ++ take (suc size - 512) (drop 512 input))
          (take-append_take 512 512 input rest (omega arith) k)
        ∙ (take-add 512 (suc size - 512) input ∙ ap (λ n. take n input) e))
  | inr last ↦
      let e : suc size - 512 ≡ 0 = ground arith in
      let le : suc size ≤ 512 = ground arith in
      rw (last, e)
        (append-nil (take (suc size) (take 512 input ++ rest))
          ∙ take-append_take (suc size) 512 input rest le k)
]

-- Where the file holds the blocks of 512 bytes that `size` bytes take up, the loop of
-- read_long_string gives the first `size` bytes and leaves the file behind the last block, on
-- fuel of at least `size`.
pub read_blocks_lem :
    (fuel : ℕ) (buffer input : List ℕ) (size : ℕ)
    → size ≤ fuel
    → round_up size ≤ length input
    → read_blocks fuel buffer input size ≡ some (take size input, drop (round_up size) input)
unfolding read_blocks
read_blocks_lem fuel buffer input zero h k = ground arith
read_blocks_lem zero buffer input (suc size) h k = absurd (omega (arith, h))
read_blocks_lem (suc fuel) buffer input (suc size) h k =
    let enough : 512 ≤ length input = omega (arith, k) in
    let full : length (take 512 input) ≡ 512 = omega (arith, length-take 512 input) in
    let rest = drop 512 buffer in
    let ih =
      read_blocks_lem fuel (take 512 input ++ rest) (drop 512 input) (suc size - 512) (omega arith)
        (omega (arith, length-drop 512 input)) in
    let e : 512 + round_up (suc size - 512) ≡ round_up (suc size) = omega arith in
    rw (full, ih)
      (ap some (
        ap₂ (λ a b. (a, b)) (one_block size input rest enough)
          (drop-drop 512 (round_up (suc size - 512)) input ∙ ap (λ n. drop n input) e)))
