-- ===== src/Metadata/RunLength.antt =====
-- A compressor of runs, for the tests: a block of one byte again and again becomes the byte and how
-- often; any other block is left to be stored as it is.
use mathlib.Core.Path.{subst}
use squashfs_tools.Common.{
  ℕ, suc, ◌<◌, ◌≤◌, ◌≡◌, ◌≢◌, refl, ap, ap₂, ◌∙◌, sym, inl, inr, Bool, true, ◌&&◌, Option, none,
  some, List, [], ◌∷◌, length, replicate, if◌then◌else◌, ◌==◌, leb, arith, Bool-cases,
}
use squashfs_tools.Metadata.{Compressor}
use squashfs_tools.Metadata.Blocks.{IsLossless}

abbrev is_run : ℕ → List ℕ → Bool
is_run b [] = true
is_run b (x ∷ s) = x == b && is_run b s

abbrev compress : List ℕ → ℕ → Option (List ℕ)
compress [] n = some []
compress (b ∷ s) n = if is_run b s then some (b ∷ suc (length s) ∷ []) else some []

abbrev uncompress : List ℕ → ℕ → Option (List ℕ)
uncompress (b ∷ k ∷ []) m = if leb k m then some (replicate k b) else none
uncompress bytes m = none

abbrev pub run_length : Compressor
run_length = record { compress = compress; uncompress = uncompress }

run_replicate : (b : ℕ) (s : List ℕ) → is_run b s ≡ true → replicate (length s) b ≡ s
run_replicate b [] h = refl
run_replicate b (x ∷ s) h =
    let same : b ≡ x = ground arith in
    let rest : is_run b s ≡ true = ground arith in ap₂ (λ y l. y ∷ l) same (run_replicate b s rest)

compress_some : (s : List ℕ) (n : ℕ) → compress s n ≢ none
compress_some [] n e = cc
compress_some (b ∷ s) n e = ground arith

first_bytes :
    (s d : List ℕ) (n m : ℕ)
    → compress s n ≡ some d
    → 0 < length d
    → length s ≤ m
    → uncompress d m ≡ some s
first_bytes [] d n m h p q = absurd (ground arith)
first_bytes (b ∷ s) d n m h p q = elim (Bool-cases (is_run b s)) [
  | inl t ↦
      let made : some (b ∷ suc (length s) ∷ []) ≡ some d = sym (rw t refl) ∙ h in
      let fits : leb (suc (length s)) m ≡ true = ground arith in
      let bytes : b ∷ suc (length s) ∷ [] ≡ d = cc in
      subst (λ l. uncompress l m ≡ some (b ∷ s)) bytes
        (rw fits (ap (λ l. some (b ∷ l)) (run_replicate b s t)))
  | inr f ↦ absurd (ground arith)
]

pub run_length-IsLossless : IsLossless run_length
run_length-IsLossless = record { answers = compress_some; inverse = first_bytes }
