-- ===== src/Tar/Sums.antt =====
-- The sums of bytes that checksum_matches compares, with each byte as it is and as a signed char.
use mathlib.Core.Path.{subst}
use squashfs_tools.Common.{
  ℕ, suc, ◌+◌, ◌-◌, ◌*◌, ◌<◌, ◌≡◌, ◌↔◌, inl, inr, refl, ap, ltb, if◌then◌else◌, List, [], ◌∷◌, ◌++◌,
  arith, All, Bool-cases,
}
use squashfs_tools.Common.Int.{ℤ, pos, negsuc, ◌+ℤ◌}
use squashfs_tools.Tar.{sum_unsigned, sum_signed}

-- The bytes from 128 on.
abbrev pub high : List ℕ → ℕ
high [] = 0
high (b ∷ s) = if ltb b 128 then high s else 1 + high s

abbrev pub total : List ℕ → ℕ
total [] = 0
total (b ∷ s) = b + total s

-- `x` is `k` less than `t`.
abbrev pub IsLess : ℤ → ℕ → ℕ → Type 0
IsLess (pos m) k t = m + k ≡ t
IsLess (negsuc m) k t = t + suc m ≡ k

low_step : (b : ℕ) (x : ℤ) (k t : ℕ) → IsLess x k t → IsLess (pos b +ℤ x) k (b + t)
low_step b (pos m) k t h = omega (arith, h)
low_step b (negsuc m) k t h = elim (Bool-cases (ltb m b)) [
  | inl l ↦ rw l (ground (arith, h, l))
  | inr g ↦ rw g (ground (arith, h, g))
]

high_step :
    (b : ℕ) (x : ℤ) (k t : ℕ)
    → b < 256
    → IsLess x k t
    → IsLess (negsuc (255 - b) +ℤ x) (k + 256) (b + t)
high_step b (pos m) k t w h = elim (Bool-cases (ltb (255 - b) m)) [
  | inl l ↦ rw l (ground (arith, w, h, l))
  | inr g ↦ rw g (ground (arith, w, h, g))
]
high_step b (negsuc m) k t w h = omega (arith, w, h)

pub sum_signed_lem :
    (s : List ℕ) → All (λ b. b < 256) s → IsLess (sum_signed s) (256 * high s) (total s)
sum_signed_lem [] h = refl
sum_signed_lem (b ∷ s) (w, h) = elim (Bool-cases (ltb b 128)) [
  | inl l ↦ rw l (low_step b (sum_signed s) (256 * high s) (total s) (sum_signed_lem s h))
  | inr g ↦
      let more : 256 * high s + 256 ≡ 256 * (1 + high s) = omega arith in
      rw g (
        subst (λ k. IsLess (negsuc (255 - b) +ℤ sum_signed s) k (b + total s)) more
          (high_step b (sum_signed s) (256 * high s) (total s) w (sum_signed_lem s h)))
]

pub IsLess-pos : (x : ℤ) (k t n : ℕ) → IsLess x k t → (x ≡ pos n) ↔ (n + k ≡ t)
IsLess-pos (pos m) k t n h = (
  λ e. (let q : m ≡ n = cc in omega (arith, h, q)),
  λ e. (let q : m ≡ n = omega (arith, h, e) in ap pos q),
)
IsLess-pos (negsuc m) k t n h = (λ e. cc, λ e. absurd (omega (arith, h, e)))

pub sum_unsigned_lem : (s : List ℕ) → sum_unsigned s ≡ total s
sum_unsigned_lem [] = refl
sum_unsigned_lem (b ∷ s) = ap (λ n. b + n) (sum_unsigned_lem s)

pub total-append : (s t : List ℕ) → total (s ++ t) ≡ total s + total t
total-append [] t = omega arith
total-append (b ∷ s) t = omega (arith, total-append s t)

pub high-append : (s t : List ℕ) → high (s ++ t) ≡ high s + high t
high-append [] t = omega arith
high-append (b ∷ s) t = elim (Bool-cases (ltb b 128)) [
  | inl l ↦ rw l (high-append s t)
  | inr g ↦ rw g (omega (arith, high-append s t))
]
