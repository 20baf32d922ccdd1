-- ===== src/Format/Fields.antt =====
-- The fields of squashfs-tools/squashfs_fs.h's structures as they stand on disk, by the macros of
-- squashfs-tools/squashfs_swap.h: numbers of 2, 4 or 8 bytes, the lowest byte first.
use squashfs_tools.Common.{
  ℕ, zero, suc, ◌+◌, ◌*◌, ◌/◌, ◌%◌, ◌^◌, ◌<◌, ◌≡◌, List, [], ◌∷◌, ◌++◌, take, drop, arith,
}

-- SWAP_LE16, SWAP_LE32 and SWAP_LE64 of a field: `n` bytes.
abbrev pub field : ℕ → ℕ → List ℕ
field zero v = []
field (suc n) v = v % 256 ∷ field n (v / 256)

-- SQUASHFS_SWAP_INTS.
abbrev pub ints : List ℕ → List ℕ
ints [] = []
ints (b ∷ blocks) = field 4 b ++ ints blocks

-- INSWAP_LE16, INSWAP_LE32 and INSWAP_LE64 of a field.
abbrev pub number : List ℕ → ℕ
number [] = 0
number (b ∷ bs) = b + 256 * number bs

-- The field of 2, 4 or 8 bytes at an offset of a structure.
abbrev pub short_at : ℕ → List ℕ → ℕ
short_at i bytes = number (take 2 (drop i bytes))

abbrev pub int_at : ℕ → List ℕ → ℕ
int_at i bytes = number (take 4 (drop i bytes))

abbrev pub long_at : ℕ → List ℕ → ℕ
long_at i bytes = number (take 8 (drop i bytes))

pub number-short : (v : ℕ) → v < 2 ^ 16 → number (field 2 v) ≡ v
number-short v h = omega arith

pub number-int : (v : ℕ) → v < 2 ^ 32 → number (field 4 v) ≡ v
number-int v h = omega arith

pub number-long : (v : ℕ) → v < 2 ^ 64 → number (field 8 v) ≡ v
number-long v h = omega arith
