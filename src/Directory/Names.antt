-- ===== src/Directory/Names.antt =====
-- What check_name accepts.
use squashfs_tools.Common.{
  ℕ, suc, ◌≡◌, ◌≢◌, ◌↔◌, ap, ◌⊎◌, inl, inr, refl, true, List, [], ◌∷◌, arith, All, length,
  if◌then◌else◌, ◌==◌, Bool-cases,
}
use squashfs_tools.Directory.{char_at, scan, check_name, is_dots, end_of}

-- The bytes up to the first NUL.
abbrev pub c_string : List ℕ → List ℕ
c_string [] = []
c_string (c ∷ name) = if c == 0 then [] else c ∷ c_string name

-- A name of one directory entry: of the length that is expected, with no slash, and neither "." nor
-- "..".
pub record IsName (name : List ℕ) (size : ℕ) : Type 0 where
  pub no_slash : All (λ c. c ≢ b'/') name
  pub complete : length name ≡ size
  pub not_dot : name ≢ b'.' ∷ []
  pub not_dot_dot : name ≢ b'.' ∷ b'.' ∷ []

-- Where the scan stops, and whether at a slash.
scan_cases :
    (s : List ℕ)
    → (All (λ c. c ≢ b'/') (c_string s) × (scan s ≡ length (c_string s)) × (char_at s (scan s) ≡ 0))
      ⊎ (¬ (All (λ c. c ≢ b'/') (c_string s)) × (char_at s (scan s) ≡ b'/'))
unfolding scan
scan_cases [] = inl (tt, refl, refl)
scan_cases (c ∷ s) = elim (Bool-cases (c == 0)) [
  | inl nul ↦ inl (rw nul (tt, ground arith, ground arith))
  | inr more ↦ elim (Bool-cases (c == b'/')) [
    | inl slash ↦ inr (rw (more, slash) ((λ h. ground arith), ground arith))
    | inr other ↦ elim (scan_cases s) [
      | inl (a, l, z) ↦ inl (rw (more, other) ((ground arith, a), ap suc l, z))
      | inr (a, z) ↦ inr (rw (more, other) ((λ h. a h.1), z))
    ]
  ]
]

-- Where no slash comes before the NUL, the two tests find the names "." and "..".
dots_iff :
    (name : List ℕ)
    → All (λ c. c ≢ b'/') (c_string name)
    → (is_dots name ≡ true) ↔ ((c_string name ≡ b'.' ∷ []) ⊎ (c_string name ≡ b'.' ∷ b'.' ∷ []))
dots_iff [] h = ground arith
dots_iff (a ∷ []) h = ground arith
dots_iff (a ∷ b ∷ []) h = ground arith
dots_iff (a ∷ b ∷ c ∷ s) h = ground arith

end_of_lem : (name : List ℕ) → end_of name ≡ scan name
unfolding scan
end_of_lem [] = refl
end_of_lem (a ∷ []) = ground arith
end_of_lem (a ∷ b ∷ s) = ground arith

-- check_name accepts exactly the names, up to their NUL, that have the length expected and no
-- slash, and are neither "." nor "..".
pub check_name_iff :
    (name : List ℕ) (size : ℕ) → (check_name name size ≡ true) ↔ IsName (c_string name) size
unfolding check_name
check_name_iff name size = elim (scan_cases name) [
  | inr (a, z) ↦ rw (end_of_lem name, z) ((λ h. ground arith), (λ h. absurd (a h.no_slash)))
  | inl (a, l, z) ↦
      rw (end_of_lem name, z, l)
        (elim (Bool-cases (is_dots name)) [
          | inl dots ↦ (
            rw dots (λ h. ground arith),
            λ h. elim ((dots_iff name a).0 dots) [
              | inl p ↦ absurd (h.not_dot p)
              | inr p ↦ absurd (h.not_dot_dot p)
            ],
          )
          | inr other ↦ (
            rw other (λ h. record {
              no_slash = a;
              complete = ground arith;
              not_dot = (λ p. ground (arith, other, (dots_iff name a).1 (inl p)));
              not_dot_dot = (λ p. ground (arith, other, (dots_iff name a).1 (inr p)));
            }),
            rw other (λ h. ground (arith, z, h.complete)),
          )
        ])
]
