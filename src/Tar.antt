-- ===== src/Tar.antt =====
-- The fields of a tar header and its strings: squashfs-tools/tar.c.
-- A field of `size` bytes is the list of them; a byte is a number below 256, and a char is signed.
-- A long long is its 64 bits, `% 2 ^ 64`, and `signed` reads them.
pub mod Numbers
pub mod Sums
pub mod Checksum
pub mod Strip
pub mod Blocks
pub mod LongString
mod Tests
use squashfs_tools.Common.{
  ℕ, zero, suc, ◌+◌, ◌-◌, ◌*◌, ◌%◌, ◌^◌, Bool, true, false, not, ◌&&◌, ◌||◌, List, [], ◌∷◌, ◌++◌,
  drop, length, replicate, take, if◌then◌else◌, ◌==◌, ltb, leb, Option, none, some,
}
use mathlib.Core.Option
use squashfs_tools.Common.Int.{ℤ, pos, negsuc, int_eq, ◌+ℤ◌}

abbrev pub minus_one : ℤ
minus_one = negsuc 0

-- The number that `w` bits stand for in two's complement.
abbrev pub signed : ℕ → ℕ → ℤ
signed w n = if ltb n (2 ^ (w - 1)) then pos n else negsuc (2 ^ w - 1 - n)

-- The `w` bits of a number.
abbrev pub bits : ℕ → ℤ → ℕ
bits w (pos n) = n % 2 ^ w
bits w (negsuc n) = 2 ^ w - 1 - n % 2 ^ w

-- `for(; size && *s == ' '; s++, size--);`
unfoldable pub skip_spaces : List ℕ → List ℕ
skip_spaces [] = []
skip_spaces (c ∷ s) = if c == b' ' then skip_spaces s else c ∷ s

-- `size && *s >= '0' && *s < '8'`
abbrev pub is_octal : ℕ → Bool
is_octal c = leb b'0' c && ltb c b'8'

-- The loop over octal digits: the number, and where it stops.
unfoldable pub octal_digits : ℕ → List ℕ → ℕ × List ℕ
octal_digits res [] = (res, [])
octal_digits res (c ∷ s) =
    if is_octal c then octal_digits ((res * 8 + c - b'0') % 2 ^ 64) s else (res, c ∷ s)

-- The test after the loop.
abbrev pub octal_end : ℕ × List ℕ → ℤ
octal_end (res, []) = signed 64 res
octal_end (res, c ∷ s) = if c == b' ' || c == 0 then signed 64 res else minus_one

abbrev pub octal_field : List ℕ → ℤ
octal_field [] = minus_one
octal_field (c ∷ s) = octal_end (octal_digits 0 (c ∷ s))

unfoldable pub read_octal : List ℕ → ℤ
read_octal s = octal_field (skip_spaces s)

unfoldable pub binary_digits : ℕ → List ℕ → ℕ
binary_digits res [] = res
binary_digits res (c ∷ s) = binary_digits ((res * 256 + c) % 2 ^ 64) s

abbrev pub read_binary : List ℕ → ℤ
read_binary s = signed 64 (binary_digits 0 s)

-- `*s == -128` is the byte 128.
unfoldable pub read_number : List ℕ → ℤ
read_number [] = read_octal []
read_number (c ∷ s) = if c == 128 then read_binary s else read_octal (c ∷ s)

abbrev pub is_digit : ℕ → Bool
is_digit c = leb b'0' c && leb c b'9'

unfoldable pub decimal_digits : ℕ → List ℕ → ℕ × List ℕ
decimal_digits res [] = (res, [])
decimal_digits res (c ∷ s) =
    if is_digit c then decimal_digits ((res * 10 + c - b'0') % 2 ^ 64) s else (res, c ∷ s)

-- The result of read_decimal, and `*bytes` where it is set.
abbrev pub decimal_end : ℕ → ℕ × List ℕ → ℤ × Option ℕ
decimal_end maxsize (res, []) = (negsuc 1, none)
decimal_end maxsize (res, c ∷ s) =
    if c == b'\n' then (signed 64 res, some (maxsize - length (c ∷ s) + 1)) else (minus_one, none)

unfoldable pub read_decimal : List ℕ → ℤ × Option ℕ
read_decimal s = decimal_end (length s) (decimal_digits 0 s)

-- The loop that drops "../", "./" and "/" from the front of a name.
unfoldable pub strip : List ℕ → List ℕ
strip [] = []
strip (a ∷ []) = if a == b'/' then [] else a ∷ []
strip (a ∷ b ∷ []) =
    if a == b'.' && b == b'/' then [] else (if a == b'/' then strip (b ∷ []) else a ∷ b ∷ [])
strip (a ∷ b ∷ c ∷ s) =
    if a == b'.' && b == b'.' && c == b'/'
    then strip s
    else (if a == b'.' && b == b'/'
        then strip (c ∷ s)
        else (if a == b'/' then strip (b ∷ c ∷ s) else a ∷ b ∷ c ∷ s))

-- read_bytes from a file of which `input` is left: the bytes read, fewer only at the end of the file.
abbrev pub read_bytes : List ℕ → ℕ → List ℕ × List ℕ
read_bytes input bytes = (take bytes input, drop bytes input)

-- The loop of read_long_string over blocks of 512 bytes, on fuel. `res == FALSE` is a read of no
-- byte; a block that is cut short is copied as it is in the buffer, with what the last read left there.
unfoldable pub read_blocks : ℕ → List ℕ → List ℕ → ℕ → Option (List ℕ × List ℕ)
read_blocks fuel buffer input zero = some ([], input)
read_blocks zero buffer input (suc size) = none
read_blocks (suc fuel) buffer input (suc size) =
    let (block, input') = read_bytes input 512 in
    let buffer' = block ++ drop (length block) buffer in
    let expected = if ltb 512 (suc size) then 512 else suc size in
    let rest = read_blocks fuel buffer' input' (suc size - 512) in
    if length block == 0 then none else Option.map (λ r. (take expected buffer' ++ r.0, r.1)) rest

-- What read_long_string does under `if(skip)`: `none` is NULL, for a name of which nothing is left.
unfoldable pub skip_front : List ℕ → Option (List ℕ)
skip_front name =
    let filename = strip name in
    if length filename == length name
    then some name
    else (if length filename == 0 then none else some filename)

-- read_long_string: the name, and what is left of the file.
unfoldable pub read_long_string : List ℕ → List ℕ → ℕ → Bool → Option (List ℕ × List ℕ)
read_long_string buffer input size skip = elim (read_blocks size buffer input size) [
  | none ↦ none
  | some read ↦ if skip then Option.map (λ name. (name, read.1)) (skip_front read.0) else some read
]

-- `udata` of a header read as a signed char.
abbrev pub signed_char : ℕ → ℤ
signed_char b = signed 8 b

-- The loops over the header that add up its bytes.
abbrev pub sum_unsigned : List ℕ → ℕ
sum_unsigned [] = 0
sum_unsigned (b ∷ s) = b + sum_unsigned s

abbrev pub sum_signed : List ℕ → ℤ
sum_signed [] = pos 0
sum_signed (b ∷ s) = signed_char b +ℤ sum_signed s

-- The checksum field: 8 bytes behind name, mode, uid, gid, size and mtime.
abbrev pub checksum_field : List ℕ → List ℕ
checksum_field header = take 8 (drop 148 header)

-- `memcpy(header->checksum, "        ", 8)`.
abbrev pub blank_checksum : List ℕ → List ℕ
blank_checksum header = take 148 header ++ (replicate 8 b' ' ++ drop 156 header)

-- `int checksum`.
abbrev pub to_int : ℤ → ℤ
to_int n = signed 32 (bits 32 n)

-- checksum_matches, and the header, in which it leaves the checksum blank.
unfoldable pub checksum_matches : List ℕ → Bool × List ℕ
checksum_matches header =
    let checksum = to_int (read_number (checksum_field header)) in
    let blank = blank_checksum header in
    if int_eq checksum minus_one
    then (false, header)
    else (int_eq (pos (sum_unsigned blank)) checksum || int_eq (sum_signed blank) checksum, blank)

unfoldable pub all_zero : List ℕ → Bool
all_zero [] = true
all_zero (b ∷ header) = b == 0 && all_zero header
