-- ===== src/Hash/Table/Defs.antt =====
-- What a table in memory stands for: for each bucket the list of its entries.
use squashfs_tools.Common.{ℕ, ◌≡◌, ◌≢◌, ap, none, List, All, Absent, Distinct, All-map, ◌∙◌}
use squashfs_tools.Hash.{Links}
use squashfs_tools.Hash.Chain.{Chain}

-- `xs b` are the entries of bucket `b`.
pub record Represents (hash : ℕ → ℕ) (t : Links) (xs : ℕ → List ℕ) : Type 0 where
  pub chains : (b : ℕ) → Chain t.next t.prev none (t.bucket b) (xs b)
  pub hashed : (b : ℕ) → All (λ x. hash x ≡ b) (xs b)
  pub distinct : (b : ℕ) → Distinct (xs b)

-- An entry stands in no bucket but its own.
pub Absent-elsewhere :
    (hash : ℕ → ℕ) (b e : ℕ) (xs : List ℕ) → hash e ≢ b → All (λ x. hash x ≡ b) xs → Absent e xs
Absent-elsewhere hash b e xs ne h =
    All-map (λ x. hash x ≡ b) (λ x. e ≢ x) xs (λ x hx p. ne (ap hash p ∙ hx)) h
