-- ===== src/Tables/Whole.antt =====
-- What write_filesystem_tables of squashfs-tools/mksquashfs.c makes of an image, unsquashfs accepts and
-- reads: read_super_4 and read_filesystem_tables of unsquash-4.c.
use squashfs_tools.Common.{ℕ, ◌^◌, ◌<◌, ◌≡◌, Option, none, some, List, ◌++◌, length}
use squashfs_tools.Tables.Super.{Superblock}
use squashfs_tools.Tables.Filesystem.{Tables}
use squashfs_tools.Tables.Pieces.{Pieces}

-- The image has less than 2 ^ 63 bytes.
abbrev pub IsShort : Option (Superblock × List ℕ) → Type 0
IsShort none = Unit
IsShort (some r) = length r.1 < 2 ^ 63

-- The bytes stand in the image at the place.
abbrev pub StandsAt : List ℕ → List ℕ → ℕ → Type 0
StandsAt whole bytes start =
    (before after : List ℕ) × (whole ≡ before ++ (bytes ++ after)) × (length before ≡ start)
