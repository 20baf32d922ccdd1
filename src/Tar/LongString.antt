-- ===== src/Tar/LongString.antt =====
-- read_long_string: the blocks and the front of the name together.
use mathlib.Core.Option
use squashfs_tools.Common.{
  ℕ, ◌≤◌, ◌<◌, ◌≡◌, ◌≢◌, ◌⊎◌, inl, inr, refl, ap, true, false, List, [], ◌∷◌, arith, take, drop,
  length, length-take, none, some, ◌==◌, Bool-cases,
}
use squashfs_tools.Tar.{strip, skip_front, read_blocks, read_long_string}
use squashfs_tools.Tar.Strip.{Stripped, IsRelative, kept, up, here, root, strip_lem}
use squashfs_tools.Tar.Blocks.{round_up, read_blocks_lem}

-- What is taken off a name makes it shorter.
Stripped-length : (s t : List ℕ) → Stripped s t → (s ≡ t) ⊎ (length t < length s)
Stripped-length s t (kept e) = inl e
Stripped-length _ t (up {s} r) = elim (Stripped-length s t r) [
  | inl e ↦ inr (omega (arith, ap length e))
  | inr l ↦ inr (omega (arith, l))
]
Stripped-length _ t (here {s} r) = elim (Stripped-length s t r) [
  | inl e ↦ inr (omega (arith, ap length e))
  | inr l ↦ inr (omega (arith, l))
]
Stripped-length _ t (root {s} r) = elim (Stripped-length s t r) [
  | inl e ↦ inr (omega (arith, ap length e))
  | inr l ↦ inr (omega (arith, l))
]

length-zero : (s : List ℕ) → length s ≡ 0 → s ≡ []
length-zero [] h = refl
length-zero (c ∷ s) h = absurd (omega (arith, h))

-- A name that is not empty is refused exactly when nothing is left of it.
skip_front_cases :
    (name : List ℕ)
    → 0 < length name
    → ((skip_front name ≡ none) × (strip name ≡ []))
      ⊎ ((skip_front name ≡ some (strip name)) × (strip name ≢ []))
unfolding skip_front
skip_front_cases name h = elim (Stripped-length name (strip name) (strip_lem name).0) [
  | inl same ↦
      let whole : (length (strip name) == length name) ≡ true = ground (arith, ap length same) in
      inr (rw whole (ap some same), λ e. omega (arith, h, ap length same, ap length e))
  | inr less ↦ elim (Bool-cases (length (strip name) == 0)) [
    | inl z ↦ inl (ground (arith, less, z), length-zero (strip name) (ground arith))
    | inr nz ↦ inr (ground (arith, less, nz), λ e. ground (arith, ap length e))
  ]
]

module _ (buffer input : List ℕ) (size : ℕ) (blocks : round_up size ≤ length input) where
  name : List ℕ
  name = take size input

  read : read_blocks size buffer input size ≡ some (name, drop (round_up size) input)
  unfolding name
  read = read_blocks_lem size buffer input size (omega arith) blocks

  whole_name : read_long_string buffer input size false ≡ some (name, drop (round_up size) input)
  unfolding read_long_string
  whole_name = rw (read, read_long_string) refl

  front_gone : skip_front name ≡ none → read_long_string buffer input size true ≡ none
  unfolding read_long_string
  front_gone h =
      rw (read, read_long_string) (ap (Option.map (λ f. (f, drop (round_up size) input))) h)

  front_cut :
      (f : List ℕ)
      → skip_front name ≡ some f
      → read_long_string buffer input size true ≡ some (f, drop (round_up size) input)
  unfolding read_long_string
  front_cut f h =
      rw (read, read_long_string) (ap (Option.map (λ f. (f, drop (round_up size) input))) h)

-- For a size above 0, and a file that holds the blocks of 512 bytes that so many bytes take up:
-- read_long_string without skip gives the first `size` bytes; with skip, it gives what is left of
-- these when some of "../", "./" and "/" are taken off their front and none of the three is left
-- there, and fails exactly when nothing is left. Where it does not fail, it leaves the file
-- behind the last block.
pub read_long_string_lem :
    (buffer input : List ℕ) (size : ℕ)
    → 0 < size
    → round_up size ≤ length input
    → (read_long_string buffer input size false
        ≡ some (take size input, drop (round_up size) input))
      × (name : List ℕ) × Stripped (take size input) name
      × IsRelative name
      × (((read_long_string buffer input size true ≡ none) × (name ≡ []))
          ⊎ ((read_long_string buffer input size true ≡ some (name, drop (round_up size) input))
              × (name ≢ [])))
unfolding name
read_long_string_lem buffer input size positive blocks =
    let (cut_off, relative) = strip_lem (take size input) in
    let long : 0 < length (take size input) = omega (arith, length-take size input) in
    (
      whole_name buffer input size blocks,
      strip (take size input),
      cut_off,
      relative,
      elim (skip_front_cases (take size input) long) [
        | inl (gone, e) ↦ inl (front_gone buffer input size blocks gone, e)
        | inr (cut, ne) ↦ inr (front_cut buffer input size blocks (strip (take size input)) cut, ne)
      ],
    )
