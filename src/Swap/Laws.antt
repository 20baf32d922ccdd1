-- ===== src/Swap/Laws.antt =====
-- Swapping in a register and swapping in memory are one operation, and it is its own inverse.
use squashfs_tools.Common.{
  ℕ, zero, suc, ◌+◌, ◌*◌, ◌^◌, ◌<◌, ◌≡◌, refl, ap₂, List, [], ◌∷◌, arith, length, All,
}
use squashfs_tools.Swap.{
  inswap_le16, inswap_le32, inswap_le64, swap_le16, swap_le32, swap_le64, swap_le16_num,
  swap_le32_num, swap_le64_num, inswap_num,
}

-- The number that bytes stand for on a little-endian machine.
abbrev pub value : List ℕ → ℕ
value [] = 0
value (b ∷ bs) = b + 256 * value bs

abbrev pub IsByte : ℕ → Type 0
IsByte b = b < 256

pub inswap_le16-value :
    (a b : ℕ) → IsByte a → IsByte b → inswap_le16 (value (a ∷ b ∷ [])) ≡ value (swap_le16 a b)
unfolding inswap_le16
inswap_le16-value a b ha hb = omega arith

pub inswap_le32-value :
    (a b c d : ℕ)
    → IsByte a
    → IsByte b
    → IsByte c
    → IsByte d
    → inswap_le32 (value (a ∷ b ∷ c ∷ d ∷ [])) ≡ value (swap_le32 a b c d)
unfolding inswap_le32
inswap_le32-value a b c d ha hb hc hd = omega arith

pub inswap_le64-value :
    (a b c d e f g h : ℕ)
    → IsByte a
    → IsByte b
    → IsByte c
    → IsByte d
    → IsByte e
    → IsByte f
    → IsByte g
    → IsByte h
    → inswap_le64 (value (a ∷ b ∷ c ∷ d ∷ e ∷ f ∷ g ∷ h ∷ [])) ≡ value (swap_le64 a b c d e f g h)
unfolding inswap_le64
inswap_le64-value a b c d e f g h ha hb hc hd he hf hg hh = omega arith

-- A second exchange of a number's bytes restores it.
pub inswap_le32_inverse : (n : ℕ) → n < 2 ^ 32 → inswap_le32 (inswap_le32 n) ≡ n
unfolding inswap_le32
inswap_le32_inverse n h = omega arith

pub inswap_le64_inverse : (n : ℕ) → n < 2 ^ 64 → inswap_le64 (inswap_le64 n) ≡ n
unfolding inswap_le64
inswap_le64_inverse n h = omega arith

-- The numbers of an array of `n`, of 2, 4 and 8 bytes each.
abbrev pub shorts : ℕ → List ℕ → List ℕ
shorts (suc n) (a ∷ b ∷ s) = value (a ∷ b ∷ []) ∷ shorts n s
shorts _ s = []

abbrev pub ints : ℕ → List ℕ → List ℕ
ints (suc n) (a ∷ b ∷ c ∷ d ∷ s) = value (a ∷ b ∷ c ∷ d ∷ []) ∷ ints n s
ints _ s = []

abbrev pub longs : ℕ → List ℕ → List ℕ
longs (suc n) (a ∷ b ∷ c ∷ d ∷ e ∷ f ∷ g ∷ h ∷ s) =
    value (a ∷ b ∷ c ∷ d ∷ e ∷ f ∷ g ∷ h ∷ []) ∷ longs n s
longs _ s = []

-- To swap an array of bytes is to swap each number of it.
pub inswap_num-shorts :
    (n : ℕ) (s : List ℕ)
    → All IsByte s
    → length s ≡ n * 2
    → inswap_num inswap_le16 n (shorts n s) ≡ shorts n (swap_le16_num n s)
unfolding inswap_num swap_le16_num
inswap_num-shorts zero s h l = refl
inswap_num-shorts (suc n) [] h l = absurd (omega arith)
inswap_num-shorts (suc n) (a ∷ []) h l = absurd (omega arith)
inswap_num-shorts (suc n) (a ∷ b ∷ s) (ha, (hb, h)) l =
    ap₂ (λ x (xs : List ℕ). x ∷ xs) (inswap_le16-value a b ha hb)
      (inswap_num-shorts n s h (omega arith))

pub inswap_num-ints :
    (n : ℕ) (s : List ℕ)
    → All IsByte s
    → length s ≡ n * 4
    → inswap_num inswap_le32 n (ints n s) ≡ ints n (swap_le32_num n s)
unfolding inswap_num swap_le32_num
inswap_num-ints zero s h l = refl
inswap_num-ints (suc n) [] h l = absurd (omega arith)
inswap_num-ints (suc n) (a ∷ []) h l = absurd (omega arith)
inswap_num-ints (suc n) (a ∷ b ∷ []) h l = absurd (omega arith)
inswap_num-ints (suc n) (a ∷ b ∷ c ∷ []) h l = absurd (omega arith)
inswap_num-ints (suc n) (a ∷ b ∷ c ∷ d ∷ s) (ha, (hb, (hc, (hd, h)))) l =
    ap₂ (λ x (xs : List ℕ). x ∷ xs) (inswap_le32-value a b c d ha hb hc hd)
      (inswap_num-ints n s h (omega arith))

-- For `n` 8-byte numbers, swapping each number in a register gives the numbers of the array whose
-- bytes are swapped in memory.
pub inswap_num-longs :
    (n : ℕ) (s : List ℕ)
    → All IsByte s
    → length s ≡ n * 8
    → inswap_num inswap_le64 n (longs n s) ≡ longs n (swap_le64_num n s)
unfolding inswap_num swap_le64_num
inswap_num-longs zero s h l = refl
inswap_num-longs (suc n) [] h l = absurd (omega arith)
inswap_num-longs (suc n) (a ∷ []) h l = absurd (omega arith)
inswap_num-longs (suc n) (a ∷ b ∷ []) h l = absurd (omega arith)
inswap_num-longs (suc n) (a ∷ b ∷ c ∷ []) h l = absurd (omega arith)
inswap_num-longs (suc n) (a ∷ b ∷ c ∷ d ∷ []) h l = absurd (omega arith)
inswap_num-longs (suc n) (a ∷ b ∷ c ∷ d ∷ e ∷ []) h l = absurd (omega arith)
inswap_num-longs (suc n) (a ∷ b ∷ c ∷ d ∷ e ∷ f ∷ []) h l = absurd (omega arith)
inswap_num-longs (suc n) (a ∷ b ∷ c ∷ d ∷ e ∷ f ∷ g ∷ []) h l = absurd (omega arith)
inswap_num-longs (suc n) (a ∷ b ∷ c ∷ d ∷ e ∷ f ∷ g ∷ i ∷ s)
      (ha, (hb, (hc, (hd, (he, (hf, (hg, (hi, h)))))))) l =
    ap₂ (λ x (xs : List ℕ). x ∷ xs) (inswap_le64-value a b c d e f g i ha hb hc hd he hf hg hi)
      (inswap_num-longs n s h (omega arith))
