-- ===== src/Tar/Strip.antt =====
-- The front of a name that read_long_string drops.
use squashfs_tools.Common.{
  ℕ, ◌≡◌, ◌≢◌, inl, inr, refl, true, ◌&&◌, List, [], ◌∷◌, arith, ◌==◌, Bool-cases,
}
use squashfs_tools.Tar.{strip}

-- `t` is left of `s` when some of "../", "./" and "/" are taken off its front.
pub data Stripped : List ℕ → List ℕ → Type 0 where
  kept : {s t : List ℕ} → s ≡ t → Stripped s t
  up : {s t : List ℕ} → Stripped s t → Stripped (b'.' ∷ b'.' ∷ b'/' ∷ s) t
  here : {s t : List ℕ} → Stripped s t → Stripped (b'.' ∷ b'/' ∷ s) t
  root : {s t : List ℕ} → Stripped s t → Stripped (b'/' ∷ s) t

-- A name with none of the three in front.
abbrev pub IsRelative : List ℕ → Type 0
IsRelative [] = Unit
IsRelative (a ∷ []) = a ≢ b'/'
IsRelative (a ∷ b ∷ []) = (a ≢ b'/') × ¬ ((a ≡ b'.') × (b ≡ b'/'))
IsRelative (a ∷ b ∷ c ∷ s) =
    (a ≢ b'/') × ¬ ((a ≡ b'.') × (b ≡ b'/')) × ¬ ((a ≡ b'.') × (b ≡ b'.') × (c ≡ b'/'))

abbrev IsDone : List ℕ → List ℕ → Type 0
IsDone s t = Stripped s t × IsRelative t

take_up :
    (a b c : ℕ) (s t : List ℕ)
    → (a == b'.' && b == b'.' && c == b'/') ≡ true
    → IsDone s t
    → IsDone (a ∷ b ∷ c ∷ s) t
take_up a b c s t h d =
    let p : a ≡ b'.' = ground arith in
    let q : b ≡ b'.' = ground arith in let r : c ≡ b'/' = ground arith in rw (p, q, r) (up d.0, d.1)

take_here :
    (a b : ℕ) (s t : List ℕ) → (a == b'.' && b == b'/') ≡ true → IsDone s t → IsDone (a ∷ b ∷ s) t
take_here a b s t h d =
    let p : a ≡ b'.' = ground arith in let q : b ≡ b'/' = ground arith in rw (p, q) (here d.0, d.1)

take_root : (a : ℕ) (s t : List ℕ) → (a == b'/') ≡ true → IsDone s t → IsDone (a ∷ s) t
take_root a s t h d = let p : a ≡ b'/' = ground arith in rw p (root d.0, d.1)

-- What read_long_string leaves of a name has none of "../", "./" and "/" in front, and only these
-- were taken off.
pub strip_lem : (s : List ℕ) → Stripped s (strip s) × IsRelative (strip s)
unfolding strip
strip_lem [] = (kept refl, tt)
strip_lem (a ∷ []) = elim (Bool-cases (a == b'/')) [
  | inl h ↦ rw h (take_root a [] [] h (kept refl, tt))
  | inr h ↦ rw h (kept refl, ground arith)
]
strip_lem (a ∷ b ∷ []) = elim (Bool-cases (a == b'.' && b == b'/')) [
  | inl h ↦ rw h (take_here a b [] [] h (kept refl, tt))
  | inr h ↦ elim (Bool-cases (a == b'/')) [
    | inl k ↦ rw (h, k) (take_root a (b ∷ []) (strip (b ∷ [])) k (strip_lem (b ∷ [])))
    | inr k ↦ rw (h, k) (kept refl, (ground arith, λ p. ground arith))
  ]
]
strip_lem (a ∷ b ∷ c ∷ s) = elim (Bool-cases (a == b'.' && b == b'.' && c == b'/')) [
  | inl g ↦ rw g (take_up a b c s (strip s) g (strip_lem s))
  | inr g ↦ elim (Bool-cases (a == b'.' && b == b'/')) [
    | inl h ↦ rw (g, h) (take_here a b (c ∷ s) (strip (c ∷ s)) h (strip_lem (c ∷ s)))
    | inr h ↦ elim (Bool-cases (a == b'/')) [
      | inl k ↦ rw (g, h, k) (take_root a (b ∷ c ∷ s) (strip (b ∷ c ∷ s)) k (strip_lem (b ∷ c ∷ s)))
      | inr k ↦ rw (g, h, k) (kept refl, (ground arith, (λ p. ground arith), (λ p. ground arith)))
    ]
  ]
]
