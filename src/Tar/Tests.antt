-- ===== src/Tar/Tests.antt =====
-- Fields of tar headers.
use squashfs_tools.Common.{
  none, ◌+◌, ◌*◌, ◌≢◌, false, ℕ, ◌≡◌, ◌↔◌, ◌⊎◌, inr, refl, true, List, [], ◌∷◌, ◌++◌, arith,
  replicate, take, drop, some,
}
use squashfs_tools.Common.Int.{pos}
use squashfs_tools.Tar.{
  minus_one, skip_spaces, octal_digits, read_octal, read_number, read_decimal, strip,
  read_long_string, checksum_matches,
}
use squashfs_tools.Tar.Numbers.{read_octal_lem, read_octal_error, read_decimal_lem}
use squashfs_tools.Tar.Checksum.{octal_text, checksum_matches_iff}
use squashfs_tools.Tar.Sums.{high, total}
use squashfs_tools.Tar.Strip.{Stripped, IsRelative}
use squashfs_tools.Tar.LongString.{read_long_string_lem}

-- " 0644" and a NUL.
abbrev mode : List ℕ
mode = b' ' ∷ b'0' ∷ b'6' ∷ b'4' ∷ b'4' ∷ 0 ∷ []

reads_mode : read_octal mode ≡ pos 420
unfolding read_octal skip_spaces octal_digits
reads_mode = refl

read_octal_lem_example : read_octal mode ≡ pos 420
read_octal_lem_example = read_octal_lem 1 3 420 (0 ∷ []) (omega arith) (omega arith) (inr refl)

read_octal_error_example : read_octal (b' ' ∷ b'0' ∷ b'6' ∷ b'x' ∷ []) ≡ minus_one
read_octal_error_example =
    read_octal_error 1 2 6 b'x' [] (omega arith) (omega arith) refl (omega arith) (omega arith)

read_decimal_lem_example : read_decimal (b'4' ∷ b'2' ∷ b'\n' ∷ b'x' ∷ []) ≡ (pos 42, some 3)
read_decimal_lem_example = read_decimal_lem 2 42 (b'x' ∷ []) (omega arith) (omega arith)

-- ".././/a"
abbrev path : List ℕ
path = b'.' ∷ b'.' ∷ b'/' ∷ b'.' ∷ b'/' ∷ b'/' ∷ b'a' ∷ []

strips_path : strip path ≡ b'a' ∷ []
unfolding strip
strips_path = refl

-- "./a", with a block of 512 bytes.
abbrev block : List ℕ
block = b'.' ∷ b'/' ∷ b'a' ∷ replicate 509 0

read_long_string_lem_example :
    (read_long_string [] block 3 false ≡ some (take 3 block, drop 512 block))
    × (name : List ℕ) × Stripped (take 3 block) name
    × IsRelative name
    × (((read_long_string [] block 3 true ≡ none) × (name ≡ []))
        ⊎ ((read_long_string [] block 3 true ≡ some (name, drop 512 block)) × (name ≢ [])))
read_long_string_lem_example = read_long_string_lem [] block 3 (omega arith) (omega arith)

-- A header with the byte 200, whose checksum of 200 is right for signed chars.
abbrev back : List ℕ
back = 200 ∷ replicate 355 0

abbrev checksum : List ℕ
checksum = b'0' ∷ b'0' ∷ b'0' ∷ b'3' ∷ b'1' ∷ b'0' ∷ 0 ∷ b' ' ∷ []

accepts_signed : (checksum_matches (replicate 148 0 ++ (checksum ++ back))).0 ≡ true
unfolding checksum_matches read_number read_octal skip_spaces octal_digits
accepts_signed = refl

checksum_matches_iff_example :
    ((checksum_matches (replicate 148 0 ++ (octal_text 0 6 200 (0 ∷ b' ' ∷ []) ++ back))).0 ≡ true)
    ↔ ((200 ≡ total (replicate 148 0 ++ back) + 8 * b' ')
        ⊎ (200 + 256 * high (replicate 148 0 ++ back) ≡ total (replicate 148 0 ++ back) + 8 * b' '))
checksum_matches_iff_example =
    checksum_matches_iff (replicate 148 0) back 0 5 200 (0 ∷ b' ' ∷ []) refl refl (omega arith)
      (omega arith) (omega arith) (inr refl)
