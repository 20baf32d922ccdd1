-- ===== src/Tar/Numbers.antt =====
-- Reading back a number that was written with a fixed number of digits.
use mathlib.Core.List.{append-nil, append_assoc}
use native.Mathlib.Nat.{
  div-lt_iff_lt-mul, mod-lt, mod-eq_of_lt, div-add-mod', mul_assoc, pow-suc, add-mul, pow-zero,
  zero-mul, mul-one, le-mul_of_pos_right,
}
use squashfs_tools.Common.{
  ℕ, zero, suc, ◌+◌, ◌*◌, ◌/◌, ◌%◌, ◌^◌, ◌<◌, ◌≡◌, ◌≢◌, ◌⊎◌, inl, inr, refl, ap, sym, ◌∙◌, false,
  List, [], ◌∷◌, ◌++◌, length, length-append, replicate, arith, some,
}
use squashfs_tools.Common.Int.{pos}
use squashfs_tools.Tar.{
  minus_one, signed, skip_spaces, octal_digits, octal_end, is_octal, octal_field, read_octal,
  binary_digits, read_number, decimal_digits, decimal_end, read_decimal,
}

-- The last `k` digits of `n` to the base `b`, the first digit being written as the byte `z`.
abbrev pub digits : ℕ → ℕ → ℕ → ℕ → List ℕ
digits b z zero n = []
digits b z (suc k) n = digits b z k (n / b) ++ ((z + n % b) ∷ [])

pub length-digits : (b z k n : ℕ) → length (digits b z k n) ≡ k
length-digits b z zero n = refl
length-digits b z (suc k) n =
    omega
      (arith, length-append (digits b z k (n / b)) ((z + n % b) ∷ []), length-digits b z k (n / b))

-- A loop that takes one digit in each round.
module _ {ℓ} {R : Type ℓ} (loop : ℕ → List ℕ → R) (b z : ℕ) (positive : 0 < b)
    (round : (res d : ℕ) (s : List ℕ)
      → d < b
      → loop res ((z + d) ∷ s) ≡ loop ((res * b + d) % 2 ^ 64) s) where
  loop-digits :
      (k n res : ℕ) (rest : List ℕ)
      → n < b ^ k
      → res * b ^ k + n < 2 ^ 64
      → loop res (digits b z k n ++ rest) ≡ loop (res * b ^ k + n) rest
  loop-digits zero n res rest h w =
      let same : res * b ^ 0 + n ≡ res =
        omega (arith, h, ap (λ p. res * p) (pow-zero b), mul-one res, pow-zero b) in
      ap (λ r. loop r rest) (sym same)
  loop-digits (suc k) n res rest h w =
      let less : n / b < b ^ k =
        (div-lt_iff_lt-mul {k = b} {x = n} {y = b ^ k} positive).1 (omega (arith, pow-suc b k)) in
      let same : (res * b ^ k + n / b) * b + n % b ≡ res * b ^ suc k + n = omega (
        arith,
        add-mul (res * b ^ k) (n / b) b,
        mul_assoc res (b ^ k) b,
        ap (λ p. res * p) (pow-suc b k),
        div-add-mod' n b,
      ) in
      let small : res * b ^ k + n / b < 2 ^ 64 =
        omega (arith, same, w, le-mul_of_pos_right (res * b ^ k + n / b) positive) in
      ap (loop res) (append_assoc (digits b z k (n / b)) ((z + n % b) ∷ []) rest)
      ∙ (loop-digits k (n / b) res ((z + n % b) ∷ rest) less small
          ∙ (round (res * b ^ k + n / b) (n % b) rest (mod-lt n positive)
              ∙ ap (λ r. loop r rest) (ap (λ r. r % 2 ^ 64) same ∙ mod-eq_of_lt w)))

  loop-number :
      (k n : ℕ) (rest : List ℕ)
      → n < b ^ k
      → n < 2 ^ 64
      → loop 0 (digits b z k n ++ rest) ≡ loop n rest
  loop-number k n rest h w =
      let same : 0 * b ^ k + n ≡ n = omega (arith, zero-mul (b ^ k)) in
      loop-digits k n 0 rest h (omega (arith, same, w)) ∙ ap (λ r. loop r rest) same

octal-number :
    (k n : ℕ) (rest : List ℕ)
    → n < 8 ^ k
    → n < 2 ^ 64
    → octal_digits 0 (digits 8 b'0' k n ++ rest) ≡ octal_digits n rest
unfolding octal_digits
octal-number = loop-number octal_digits 8 b'0' (omega arith) (λ res d s less. ground arith)

binary-number :
    (k n : ℕ) (rest : List ℕ)
    → n < 256 ^ k
    → n < 2 ^ 64
    → binary_digits 0 (digits 256 0 k n ++ rest) ≡ binary_digits n rest
unfolding binary_digits
binary-number = loop-number binary_digits 256 0 (omega arith) (λ res d s less. ground arith)

decimal-number :
    (k n : ℕ) (rest : List ℕ)
    → n < 10 ^ k
    → n < 2 ^ 64
    → decimal_digits 0 (digits 10 b'0' k n ++ rest) ≡ decimal_digits n rest
unfolding decimal_digits
decimal-number = loop-number decimal_digits 10 b'0' (omega arith) (λ res d s less. ground arith)

-- What may follow the digits of an octal field: its end, or a space or a NUL.
abbrev pub IsTerminated : List ℕ → Type 0
IsTerminated [] = Unit
IsTerminated (c ∷ s) = (c ≡ b' ') ⊎ (c ≡ 0)

octal_end_lem :
    (n : ℕ) (rest : List ℕ)
    → IsTerminated rest
    → n < 2 ^ 63
    → octal_end (octal_digits n rest) ≡ pos n
unfolding octal_digits
octal_end_lem n [] t w = ground arith
octal_end_lem n (c ∷ s) (inl q) w = ground arith
octal_end_lem n (c ∷ s) (inr q) w = ground arith

skip_spaces-replicate : (i : ℕ) (s : List ℕ) → skip_spaces (replicate i b' ' ++ s) ≡ skip_spaces s
unfolding skip_spaces
skip_spaces-replicate zero s = refl
skip_spaces-replicate (suc i) s = skip_spaces-replicate i s

-- Digits begin with no space.
skip_spaces-digits :
    (k n c : ℕ) (rest : List ℕ)
    → c ≢ b' '
    → skip_spaces (digits 8 b'0' k n ++ (c ∷ rest)) ≡ digits 8 b'0' k n ++ (c ∷ rest)
unfolding skip_spaces
skip_spaces-digits zero n c rest h = ground arith
skip_spaces-digits (suc k) n c rest h =
    rw (append_assoc (digits 8 b'0' k (n / 8)) ((b'0' + n % 8) ∷ []) (c ∷ rest))
      (skip_spaces-digits k (n / 8) (b'0' + n % 8) (c ∷ rest) (omega arith))

octal_field-append :
    (s : List ℕ) (d : ℕ) (rest : List ℕ)
    → octal_field (s ++ (d ∷ rest)) ≡ octal_end (octal_digits 0 (s ++ (d ∷ rest)))
octal_field-append [] d rest = refl
octal_field-append (c ∷ s) d rest = refl

-- A number below 2 ^ 63, written as one or more octal digits that hold it, behind spaces and in
-- front of a space, a NUL or the end of the field, is read back by read_octal.
pub read_octal_lem :
    (i k n : ℕ) (rest : List ℕ)
    → n < 8 ^ suc k
    → n < 2 ^ 63
    → IsTerminated rest
    → read_octal (replicate i b' ' ++ (digits 8 b'0' (suc k) n ++ rest)) ≡ pos n
unfolding read_octal
read_octal_lem i k n rest h w t =
    let m = n / 8 in
    let more : List ℕ = (b'0' + n % 8) ∷ rest in
    let e = append_assoc (digits 8 b'0' k m) ((b'0' + n % 8) ∷ []) rest in
    ap octal_field (
      skip_spaces-replicate i (digits 8 b'0' (suc k) n ++ rest)
      ∙ (ap skip_spaces e ∙ skip_spaces-digits k m (b'0' + n % 8) rest (omega arith)))
    ∙ (octal_field-append (digits 8 b'0' k m) (b'0' + n % 8) rest
        ∙ (ap (λ l. octal_end (octal_digits 0 l)) (sym e)
            ∙ (ap octal_end (octal-number (suc k) n rest h (omega (arith, w)))
                ∙ octal_end_lem n rest t w)))

-- A field of spaces and octal digits, of a number below 2 ^ 64, that ends in a character that is
-- no octal digit, space or NUL is refused by read_octal.
pub read_octal_error :
    (i k n c : ℕ) (rest : List ℕ)
    → n < 8 ^ k
    → n < 2 ^ 64
    → is_octal c ≡ false
    → c ≢ b' '
    → c ≢ 0
    → read_octal (replicate i b' ' ++ (digits 8 b'0' k n ++ (c ∷ rest))) ≡ minus_one
unfolding read_octal octal_digits
read_octal_error i k n c rest h w digit space nul =
    ap octal_field (
      skip_spaces-replicate i (digits 8 b'0' k n ++ (c ∷ rest))
      ∙ skip_spaces-digits k n c rest space)
    ∙ (octal_field-append (digits 8 b'0' k n) c rest
        ∙ (ap octal_end (octal-number k n (c ∷ rest) h w) ∙ rw digit (ground arith)))

-- The binary fields of the numbers that octal digits cannot write.
pub read_number-binary :
    (k n : ℕ) → n < 256 ^ k → n < 2 ^ 63 → read_number (128 ∷ digits 256 0 k n) ≡ pos n
unfolding read_number binary_digits
read_number-binary k n h w =
    let e =
      ap (λ s. binary_digits 0 s) (sym (append-nil (digits 256 0 k n)))
      ∙ binary-number k n [] h (omega (arith, w)) in
    ap (signed 64) e ∙ ground arith

-- A number below 2 ^ 63, written as decimal digits that hold it and a newline, is read back by
-- read_decimal, with the number of bytes up to the newline and this included.
pub read_decimal_lem :
    (k n : ℕ) (rest : List ℕ)
    → n < 10 ^ k
    → n < 2 ^ 63
    → read_decimal (digits 10 b'0' k n ++ (b'\n' ∷ rest)) ≡ (pos n, some (k + 1))
unfolding read_decimal decimal_digits
read_decimal_lem k n rest h w =
    let whole = length-append (digits 10 b'0' k n) (b'\n' ∷ rest) in
    let width = length-digits 10 b'0' k n in
    ap (decimal_end (length (digits 10 b'0' k n ++ (b'\n' ∷ rest))))
      (decimal-number k n (b'\n' ∷ rest) h (omega (arith, w)))
    ∙ ground (arith, whole, width)
