-- ===== src/Tar/Checksum.antt =====
-- The checksum of a header, as the programs that write tar files store it.
use mathlib.Core.List.{append_assoc}
use squashfs_tools.Common.{
  ℕ, zero, suc, ◌+◌, ◌/◌, ◌%◌, ◌^◌, ◌<◌, ◌≡◌, ◌≢◌, ◌↔◌, ◌⊎◌, inl, inr, refl, ap, sym, ◌∙◌, Bool,
  true, false, length, take, drop, length-append, ap₂, All-append, All-left, All-right, All, ◌*◌,
  ◌||◌, List, [], ◌∷◌, ◌++◌, arith, replicate, ==_iff, ◌==◌,
}
use squashfs_tools.Common.Int.{pos, int_eq, int_eq_iff}
use squashfs_tools.Tar.{
  to_int, read_octal, read_number, checksum_field, blank_checksum, sum_unsigned, sum_signed,
  checksum_matches,
}
use squashfs_tools.Tar.Sums.{
  high, total, IsLess-pos, sum_signed_lem, sum_unsigned_lem, total-append, high-append,
}
use squashfs_tools.Tar.Numbers.{digits, IsTerminated, read_octal_lem}

read_number-other : (c : ℕ) (s : List ℕ) → c ≢ 128 → read_number (c ∷ s) ≡ read_octal (c ∷ s)
unfolding read_number
read_number-other c s h = ground arith

-- What begins with an octal digit is no binary field.
read_number-digits :
    (k n c : ℕ) (rest : List ℕ)
    → c ≢ 128
    → read_number (digits 8 b'0' k n ++ (c ∷ rest)) ≡ read_octal (digits 8 b'0' k n ++ (c ∷ rest))
read_number-digits zero n c rest h = read_number-other c rest h
read_number-digits (suc k) n c rest h =
    rw (append_assoc (digits 8 b'0' k (n / 8)) ((b'0' + n % 8) ∷ []) (c ∷ rest))
      (read_number-digits k (n / 8) (b'0' + n % 8) (c ∷ rest) (omega arith))

-- A field of octal digits, behind spaces.
abbrev pub octal_text : ℕ → ℕ → ℕ → List ℕ → List ℕ
octal_text i k n rest = replicate i b' ' ++ (digits 8 b'0' k n ++ rest)

-- read_number reads an octal field as read_octal does.
pub read_number-octal :
    (i k n : ℕ) (rest : List ℕ)
    → n < 8 ^ suc k
    → n < 2 ^ 63
    → IsTerminated rest
    → read_number (octal_text i (suc k) n rest) ≡ pos n
read_number-octal zero k n rest h w t =
    let e = append_assoc (digits 8 b'0' k (n / 8)) ((b'0' + n % 8) ∷ []) rest in
    ap read_number e
    ∙ (read_number-digits k (n / 8) (b'0' + n % 8) rest (omega arith)
        ∙ (ap read_octal (sym e) ∙ read_octal_lem 0 k n rest h w t))
read_number-octal (suc i) k n rest h w t =
    read_number-other b' ' (octal_text i (suc k) n rest) (omega arith)
    ∙ read_octal_lem (suc i) k n rest h w t

to_int-pos : (n : ℕ) → n < 2 ^ 31 → to_int (pos n) ≡ pos n
to_int-pos n h = ground arith

take-append : (n : ℕ) (l r : List ℕ) → length l ≡ n → take n (l ++ r) ≡ l
take-append zero [] r h = refl
take-append (suc n) (x ∷ l) r h = ap (λ l'. x ∷ l') (take-append n l r (omega arith))
take-append zero (x ∷ l) r h = absurd (omega (arith, h))
take-append (suc n) [] r h = absurd (omega (arith, h))

drop-append : (n : ℕ) (l r : List ℕ) → length l ≡ n → drop n (l ++ r) ≡ r
drop-append zero [] r h = refl
drop-append (suc n) (x ∷ l) r h = drop-append n l r (omega arith)
drop-append zero (x ∷ l) r h = absurd (omega (arith, h))
drop-append (suc n) [] r h = absurd (omega (arith, h))

-- A header in which `field` stands where the checksum does.
module _ (front field back : List ℕ) (h : length front ≡ 148) (h' : length field ≡ 8) where
  checksum_field-append : checksum_field (front ++ (field ++ back)) ≡ field
  checksum_field-append =
      ap (take 8) (drop-append 148 front (field ++ back) h) ∙ take-append 8 field back h'

  blank_checksum-append :
      blank_checksum (front ++ (field ++ back)) ≡ front ++ (replicate 8 b' ' ++ back)
  blank_checksum-append =
      ap₂ (λ l r. l ++ (replicate 8 b' ' ++ r)) (take-append 148 front (field ++ back) h)
        (ap (drop 156) (sym (append_assoc front field back))
          ∙ drop-append 156 (front ++ field) back
              (omega (arith, length-append {0} front field, h, h')))

abbrev blank : List ℕ → List ℕ → List ℕ
blank front back = front ++ (replicate 8 b' ' ++ back)

total-blank : (front back : List ℕ) → total (blank front back) ≡ total (front ++ back) + 8 * b' '
total-blank front back =
    omega (arith, total-append front (replicate 8 b' ' ++ back), total-append front back)

high-blank : (front back : List ℕ) → high (blank front back) ≡ high (front ++ back)
high-blank front back = high-append front (replicate 8 b' ' ++ back) ∙ sym (high-append front back)

blank-bytes :
    (front back : List ℕ)
    → All (λ b. b < 256) (front ++ back)
    → All (λ b. b < 256) (blank front back)
blank-bytes front back h =
    All-append (λ b. b < 256) front (replicate 8 b' ' ++ back)
      (All-left (λ b. b < 256) front back h)
      (All-append (λ b. b < 256) (replicate 8 b' ') back
        (
          omega arith,
          (
            omega arith,
            (
              omega arith,
              (omega arith, (omega arith, (omega arith, (omega arith, (omega arith, tt))))),
            ),
          ),
        )
        (All-right (λ b. b < 256) front back h))

or_iff : (a b : Bool) → ((a || b) ≡ true) ↔ ((a ≡ true) ⊎ (b ≡ true))
or_iff true b = (λ h. inl refl, λ h. refl)
or_iff false b = (λ h. inr h, λ h. ground (arith, h))

-- A header of bytes whose checksum field has the octal digits of a number below 2 ^ 31, behind
-- spaces and up to a terminator, is accepted exactly when the number is the sum of the other
-- bytes and of 8 spaces, each byte counted as it is, or each from 128 on as 256 less.
pub checksum_matches_iff :
    (front back : List ℕ) (i k n : ℕ) (rest : List ℕ)
    → length front ≡ 148
    → length (octal_text i (suc k) n rest) ≡ 8
    → All (λ b. b < 256) (front ++ back)
    → n < 8 ^ suc k
    → n < 2 ^ 31
    → IsTerminated rest
    → ((checksum_matches (front ++ (octal_text i (suc k) n rest ++ back))).0 ≡ true) ↔ (
        (n ≡ total (front ++ back) + 8 * b' ')
        ⊎ (n + 256 * high (front ++ back) ≡ total (front ++ back) + 8 * b' '))
unfolding checksum_matches
checksum_matches_iff front back i k n rest p q bytes h w t =
    let field = octal_text i (suc k) n rest in
    let read : to_int (read_number (checksum_field (front ++ (field ++ back)))) ≡ pos n =
      ap (λ f. to_int (read_number f)) (checksum_field-append front field back p q)
      ∙ (ap to_int (read_number-octal i k n rest h (omega (arith, w)) t) ∙ to_int-pos n w) in
    let unsigned = sum_unsigned (blank front back) in
    let sum = sum_signed (blank front back) in
    let plain : unsigned ≡ total (front ++ back) + 8 * b' ' =
      sum_unsigned_lem (blank front back) ∙ total-blank front back in
    let less =
      IsLess-pos sum (256 * high (blank front back)) (total (blank front back)) n
        (sum_signed_lem (blank front back) (blank-bytes front back bytes)) in
    rw (read, blank_checksum-append front field back p q)
      (
        (λ m. elim ((or_iff (unsigned == n) (int_eq sum (pos n))).0 m) [
          | inl a ↦
              let same : unsigned ≡ n = (==_iff unsigned n).0 a in inl (omega (arith, same, plain))
          | inr b ↦
              let same = less.0 ((int_eq_iff sum (pos n)).0 b) in
              inr (omega (arith, same, total-blank front back, high-blank front back))
        ]),
        λ m. (or_iff (unsigned == n) (int_eq sum (pos n))).1 (elim m [
          | inl a ↦ inl ((==_iff unsigned n).1 (omega (arith, a, plain)))
          | inr b ↦ inr (
              (int_eq_iff sum (pos n)).1
                (less.1 (omega (arith, b, total-blank front back, high-blank front back))))
        ]),
      )
