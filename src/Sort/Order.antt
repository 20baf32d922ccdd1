-- ===== src/Sort/Order.antt =====
-- Files are written by descending priority, each once.
use mathlib.Core.List.{Perm, perm_middle}
use mathlib.Core.List.Perm
use mathlib.Core.Path.{subst}
use native.Mathlib.Decide.{ℕ_discrete}
use squashfs_tools.Common.{
  ℕ, zero, suc, ◌≤◌, ◌<◌, ◌≡◌, ◌≢◌, refl, ap₂, sym, List, [], ◌∷◌, ◌++◌, arith, All, All-append,
  All-map, All-zip, update, update_self, update_ne,
}
use squashfs_tools.Common.Int.{ℤ, pos, negsuc, ◌≤ℤ◌}
use squashfs_tools.Sort.{slot, add_priority_list, write_order, sort_files_and_write}

-- The priorities that a sort file may give.
abbrev pub IsPriority : ℤ → Type 0
IsPriority p = (negsuc 32767 ≤ℤ p) × (p ≤ℤ pos 32767)

module _ {A : Type 0} (priority : A → ℤ) where
  -- The lists that the calls of add_priority_list leave, the last one first.
  pub add_all : List A → ℕ → List A
  add_all [] = λ i. []
  add_all (x ∷ xs) = add_priority_list (add_all xs) x (priority x)

  -- The list of each file is no higher than those before it.
  IsOrdered : List A → Type 0
  IsOrdered [] = Unit
  IsOrdered (x ∷ xs) = All (λ y. slot (priority y) ≤ slot (priority x)) xs × IsOrdered xs

  own :
      (lists : ℕ → List A) (x : A) (i : ℕ)
      → slot (priority x) ≡ i
      → add_priority_list lists x (priority x) i ≡ x ∷ lists i
  unfolding add_priority_list
  own lists x i q =
      subst (λ j. update lists (slot (priority x)) (x ∷ lists (slot (priority x))) j ≡ x ∷ lists j)
        q (update_self lists (slot (priority x)) (x ∷ lists (slot (priority x))))

  other :
      (lists : ℕ → List A) (x : A) (i : ℕ)
      → slot (priority x) ≢ i
      → add_priority_list lists x (priority x) i ≡ lists i
  unfolding add_priority_list
  other lists x i n = update_ne lists (slot (priority x)) (x ∷ lists (slot (priority x))) i n

  filed : (xs : List A) (i : ℕ) → All (λ x. slot (priority x) ≡ i) (add_all xs i)
  unfolding add_all
  filed [] i = tt
  filed (x ∷ xs) i = elim (ℕ_discrete (slot (priority x)) i) [
    | yes q ↦
        subst (All (λ x. slot (priority x) ≡ i)) (sym (own (add_all xs) x i q)) (q, filed xs i)
    | no n ↦ subst (All (λ x. slot (priority x) ≡ i)) (sym (other (add_all xs) x i n)) (filed xs i)
  ]

  below : (xs : List A) (n : ℕ) → All (λ x. slot (priority x) < n) (write_order n (add_all xs))
  unfolding write_order
  below xs zero = tt
  below xs (suc i) =
      All-append (λ x. slot (priority x) < suc i) (add_all xs i) (write_order i (add_all xs))
        (All-map (λ x. slot (priority x) ≡ i) (λ x. slot (priority x) < suc i) (add_all xs i)
          (λ x e. omega arith) (filed xs i))
        (All-map (λ x. slot (priority x) < i) (λ x. slot (priority x) < suc i)
          (write_order i (add_all xs)) (λ x e. omega arith) (below xs i))

  same_then_lower :
      (i : ℕ) (xs ys : List A)
      → All (λ x. slot (priority x) ≡ i) xs
      → All (λ x. slot (priority x) < i) ys
      → IsOrdered ys
      → IsOrdered (xs ++ ys)
  unfolding IsOrdered
  same_then_lower i [] ys h k d = d
  same_then_lower i (x ∷ xs) ys (e, h) k d = (
    All-append (λ y. slot (priority y) ≤ slot (priority x)) xs ys
        (All-map (λ y. slot (priority y) ≡ i) (λ y. slot (priority y) ≤ slot (priority x)) xs
          (λ y q. omega arith) h)
        (All-map (λ y. slot (priority y) < i) (λ y. slot (priority y) ≤ slot (priority x)) ys
          (λ y q. omega arith) k),
    same_then_lower i xs ys h k d,
  )

  descending : (xs : List A) (n : ℕ) → IsOrdered (write_order n (add_all xs))
  unfolding write_order IsOrdered
  descending xs zero = tt
  descending xs (suc i) =
      same_then_lower i (add_all xs i) (write_order i (add_all xs)) (filed xs i) (below xs i)
        (descending xs i)

  -- Lists at and above `n` do not matter.
  untouched :
      (n : ℕ) (lists : ℕ → List A) (x : A)
      → n ≤ slot (priority x)
      → write_order n (add_priority_list lists x (priority x)) ≡ write_order n lists
  unfolding write_order
  untouched zero lists x h = refl
  untouched (suc i) lists x h =
      ap₂ (λ l r. l ++ r) (other lists x i (λ q. omega (arith, h, q)))
        (untouched i lists x (omega arith))

  added :
      (n : ℕ) (lists : ℕ → List A) (x : A)
      → slot (priority x) < n
      → Perm (x ∷ write_order n lists) (write_order n (add_priority_list lists x (priority x)))
  unfolding write_order
  added zero lists x h = absurd (omega (arith, h))
  added (suc i) lists x h = elim (ℕ_discrete (slot (priority x)) i) [
    | yes q ↦
        subst (λ l. Perm (x ∷ (lists i ++ write_order i lists)) l)
          (sym (ap₂ (λ l r. l ++ r) (own lists x i q) (untouched i lists x (omega (arith, q)))))
          (Perm.refl (x ∷ (lists i ++ write_order i lists)))
    | no n ↦
        subst
          (λ l.
            Perm (x ∷ (lists i ++ write_order i lists))
              (l ++ write_order i (add_priority_list lists x (priority x))))
          (sym (other lists x i n))
          (Perm.trans (Perm.symm (perm_middle (lists i) (write_order i lists)))
            (Perm.append_left (lists i) (added i lists x (omega (arith, n, h)))))
  ]

  no_files : (n : ℕ) → write_order n (add_all []) ≡ []
  unfolding write_order add_all
  no_files zero = refl
  no_files (suc i) = no_files i

  all_written :
      (n : ℕ) (xs : List A)
      → All (λ x. slot (priority x) < n) xs
      → Perm xs (write_order n (add_all xs))
  unfolding add_all
  all_written n [] h = subst (λ l. Perm [] l) (sym (no_files n)) (Perm.refl [])
  all_written n (x ∷ xs) h =
      Perm.trans (Perm.cons x (all_written n xs h.1)) (added n (add_all xs) x h.0)

  -- What all files have, those have that are written.
  listed : (P : A → Type 0) (xs : List A) (i : ℕ) → All P xs → All P (add_all xs i)
  unfolding add_all
  listed P [] i h = tt
  listed P (x ∷ xs) i (p, h) = elim (ℕ_discrete (slot (priority x)) i) [
    | yes q ↦ subst (All P) (sym (own (add_all xs) x i q)) (p, listed P xs i h)
    | no n ↦ subst (All P) (sym (other (add_all xs) x i n)) (listed P xs i h)
  ]

  all_listed :
      (P : A → Type 0) (xs : List A) (n : ℕ) → All P xs → All P (write_order n (add_all xs))
  unfolding write_order
  all_listed P xs zero h = tt
  all_listed P xs (suc i) h =
      All-append P (add_all xs i) (write_order i (add_all xs)) (listed P xs i h)
        (all_listed P xs i h)

  -- The priority of each file is no higher than those before it.
  pub IsDescending : List A → Type 0
  IsDescending [] = Unit
  IsDescending (x ∷ xs) = All (λ y. priority y ≤ℤ priority x) xs × IsDescending xs

  -- The list that a priority has is higher just where the priority is.
  slot_lower : (p q : ℤ) → IsPriority p → IsPriority q → slot q ≤ slot p → q ≤ℤ p
  slot_lower (pos m) (pos n) a b h = omega (arith, h)
  slot_lower (pos m) (negsuc n) a b h = tt
  slot_lower (negsuc m) (pos n) a b h = absurd (omega (arith, a.0, h))
  slot_lower (negsuc m) (negsuc n) a b h = omega (arith, a.0, b.0, h)

  slot_below : (p : ℤ) → IsPriority p → slot p < 65536
  slot_below (pos n) h = omega (arith, h.1)
  slot_below (negsuc n) h = omega arith

  ordered-IsDescending :
      (xs : List A) → All (λ x. IsPriority (priority x)) xs → IsOrdered xs → IsDescending xs
  unfolding IsOrdered IsDescending
  ordered-IsDescending [] h d = tt
  ordered-IsDescending (x ∷ xs) (p, h) (d, ds) = (
    All-map (λ y. IsPriority (priority y) × (slot (priority y) ≤ slot (priority x)))
        (λ y. priority y ≤ℤ priority x) xs (λ y k. slot_lower (priority x) (priority y) p k.0 k.1)
        (All-zip (λ y. IsPriority (priority y)) (λ y. slot (priority y) ≤ slot (priority x)) xs h
          d),
    ordered-IsDescending xs h ds,
  )

  -- For files whose priorities are from -32768 to 32767: sort_files_and_write takes each of
  -- them once, and none after one with a lower priority.
  pub sort_files_and_write_lem :
      (files : List A)
      → All (λ x. IsPriority (priority x)) files
      → IsDescending (sort_files_and_write (add_all files))
        × Perm files (sort_files_and_write (add_all files))
  sort_files_and_write_lem files h =
      let below_all =
        All-map (λ x. IsPriority (priority x)) (λ x. slot (priority x) < 65536) files
          (λ x k. slot_below (priority x) k) h in
      let same = all_written 65536 files below_all in
      (
        ordered-IsDescending (sort_files_and_write (add_all files))
            (all_listed (λ x. IsPriority (priority x)) files 65536 h) (descending files 65536),
        same,
      )
