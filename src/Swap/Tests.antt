-- ===== src/Swap/Tests.antt =====
-- Byte order on concrete inputs.
use squashfs_tools.Common.{◌≡◌, refl}
use squashfs_tools.Swap.{inswap_le32}

-- The magic number of a filesystem, and as the other byte order reads it.
magic_swapped : inswap_le32 0x73717368 ≡ 0x68737173
unfolding inswap_le32
magic_swapped = refl
