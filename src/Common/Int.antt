-- ===== src/Common/Int.antt =====
-- Signed integers, as far as the program's indexes need them.
use Prim.Native.Nat.{ℕ, suc, ◌+◌, ◌-◌, ◌≤◌}
use mathlib.Core.Path.{◌≡◌}
use mathlib.Core.Bool.{Bool, true, false}
use mathlib.Core.Logic.{◌↔◌}
use native.Mathlib.Omega.{arith}
use squashfs_tools.Common.Tests.{◌==◌, ltb, if◌then◌else◌}

-- `negsuc n` is -(n + 1).
pub data ℤ : Type 0 where
  pos : ℕ → ℤ
  negsuc : ℕ → ℤ

-- llabs.
abbrev pub abs : ℤ → ℕ
abs (pos n) = n
abs (negsuc n) = suc n

abbrev pub int_eq : ℤ → ℤ → Bool
int_eq (pos m) (pos n) = m == n
int_eq (negsuc m) (negsuc n) = m == n
int_eq (pos m) (negsuc n) = false
int_eq (negsuc m) (pos n) = false

pub int_eq_iff : (a b : ℤ) → (int_eq a b ≡ true) ↔ (a ≡ b)
int_eq_iff (pos m) (pos n) = ground arith
int_eq_iff (negsuc m) (negsuc n) = ground arith
int_eq_iff (pos m) (negsuc n) = (λ h. cc, λ h. cc)
int_eq_iff (negsuc m) (pos n) = (λ h. cc, λ h. cc)

infixl 65 ◌+ℤ◌
abbrev pub ◌+ℤ◌ : ℤ → ℤ → ℤ
pos m +ℤ pos n = pos (m + n)
pos m +ℤ negsuc n = if ltb n m then pos (m - n - 1) else negsuc (n - m)
negsuc m +ℤ pos n = if ltb m n then pos (n - m - 1) else negsuc (m - n)
negsuc m +ℤ negsuc n = negsuc (m + n + 1)

infix 50 ◌≤ℤ◌
abbrev pub ◌≤ℤ◌ : ℤ → ℤ → Type 0
pos m ≤ℤ pos n = m ≤ n
pos m ≤ℤ negsuc n = ⊥
negsuc m ≤ℤ pos n = Unit
negsuc m ≤ℤ negsuc n = n ≤ m
