-- ===== src/Swap.antt =====
-- squashfs-tools/swap.c: the byte order of the numbers on disk. `x >> k` is `x / 2 ^ k`; the fields
-- that the masks leave do not overlap, so `|` is `+`.
pub mod Laws
mod Tests
use squashfs_tools.Common.{
  ℕ, zero, suc, ◌+◌, ◌*◌, ◌/◌, ◌%◌, ◌^◌, List, [], ◌∷◌, ◌++◌, map, take, drop,
}

-- The byte of `n` that the mask 0xff << k leaves, at the bottom.
abbrev pub byte_at : ℕ → ℕ → ℕ
byte_at n k = n / 2 ^ k % 256

-- swap_le16, swap_le32, swap_le64: what is stored at `d`, for the bytes at `s`.
abbrev pub swap_le16 : ℕ → ℕ → List ℕ
swap_le16 s0 s1 = s1 ∷ s0 ∷ []

abbrev pub swap_le32 : ℕ → ℕ → ℕ → ℕ → List ℕ
swap_le32 s0 s1 s2 s3 = s3 ∷ s2 ∷ s1 ∷ s0 ∷ []

abbrev pub swap_le64 : ℕ → ℕ → ℕ → ℕ → ℕ → ℕ → ℕ → ℕ → List ℕ
swap_le64 s0 s1 s2 s3 s4 s5 s6 s7 = s7 ∷ s6 ∷ s5 ∷ s4 ∷ s3 ∷ s2 ∷ s1 ∷ s0 ∷ []

unfoldable pub inswap_le16 : ℕ → ℕ
inswap_le16 num = num / 2 ^ 8 + byte_at num 0 * 2 ^ 8

unfoldable pub inswap_le32 : ℕ → ℕ
inswap_le32 num =
    num / 2 ^ 24 + byte_at num 16 * 2 ^ 8 + byte_at num 8 * 2 ^ 16 + byte_at num 0 * 2 ^ 24

unfoldable pub inswap_le64 : ℕ → ℕ
inswap_le64 num =
    num / 2 ^ 56
    + byte_at num 48 * 2 ^ 8
    + byte_at num 40 * 2 ^ 16
    + byte_at num 32 * 2 ^ 24
    + byte_at num 24 * 2 ^ 32
    + byte_at num 16 * 2 ^ 40
    + byte_at num 8 * 2 ^ 48
    + byte_at num 0 * 2 ^ 56

-- swap_le16_num and so on: `n` numbers, one after the other. Bytes that are missing are not read.
unfoldable pub swap_le16_num : ℕ → List ℕ → List ℕ
swap_le16_num (suc n) (a ∷ b ∷ s) = swap_le16 a b ++ swap_le16_num n s
swap_le16_num _ s = []

unfoldable pub swap_le32_num : ℕ → List ℕ → List ℕ
swap_le32_num (suc n) (a ∷ b ∷ c ∷ d ∷ s) = swap_le32 a b c d ++ swap_le32_num n s
swap_le32_num _ s = []

unfoldable pub swap_le64_num : ℕ → List ℕ → List ℕ
swap_le64_num (suc n) (a ∷ b ∷ c ∷ d ∷ e ∷ f ∷ g ∷ h ∷ s) =
    swap_le64 a b c d e f g h ++ swap_le64_num n s
swap_le64_num _ s = []

-- inswap_le16_num and so on, for the width `inswap`: the first `n` numbers of the array.
unfoldable pub inswap_num : (ℕ → ℕ) → ℕ → List ℕ → List ℕ
inswap_num inswap zero s = s
inswap_num inswap (suc n) [] = []
inswap_num inswap (suc n) (x ∷ s) = inswap x ∷ inswap_num inswap n s
