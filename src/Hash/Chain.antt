-- ===== src/Hash/Chain.antt =====
-- A doubly linked chain in memory, as the list of its entries.
use squashfs_tools.Common.{
  ℕ, zero, suc, ◌<◌, ◌≡◌, ◌≢◌, refl, Bool, none, some, List, [], ◌∷◌, ◌++◌, arith, length, All,
  Absent, Bool-cases, ap, true, false, ◌⊎◌, inl, inr, if◌then◌else◌,
}
use squashfs_tools.Pointer.{Pointer}
use squashfs_tools.Hash.{find}

-- From pointer `o` on stand the entries `xs`, and the first one's `prev` is `p`.
abbrev pub Chain : (ℕ → Pointer) → (ℕ → Pointer) → Pointer → Pointer → List ℕ → Type 0
Chain next prev p o [] = o ≡ none
Chain next prev p o (x ∷ xs) = (o ≡ some x) × (prev x ≡ p) × Chain next prev (some x) (next x) xs

-- Writes elsewhere leave a chain alone.
pub Chain-frame :
    (next prev next' prev' : ℕ → Pointer) (p o : Pointer) (xs : List ℕ)
    → All (λ x. (next' x ≡ next x) × (prev' x ≡ prev x)) xs
    → Chain next prev p o xs
    → Chain next' prev' p o xs
Chain-frame next prev next' prev' p o [] same c = c
Chain-frame next prev next' prev' p o (x ∷ xs) ((sn, sp), same) (eo, ep, c) =
    (eo, cc, rw sn (Chain-frame next prev next' prev' (some x) (next x) xs same c))

-- The first entry that passes the test.
unfoldable pub first : (ℕ → Bool) → List ℕ → Pointer
first test [] = none
first test (x ∷ xs) = if test x then some x else first test xs

-- The search loop ends, and finds what the list says.
pub find-Chain :
    (next prev : ℕ → Pointer) (test : ℕ → Bool) (fuel : ℕ) (p o : Pointer) (xs : List ℕ)
    → Chain next prev p o xs
    → length xs < fuel
    → find next test fuel o ≡ first test xs
unfolding find first
find-Chain next prev test zero p o xs c h = absurd (omega arith)
find-Chain next prev test (suc fuel) p o [] c h = rw c
find-Chain next prev test (suc fuel) p o (x ∷ xs) (eo, ep, c) h =
    rw eo (rw (find-Chain next prev test fuel (some x) (next x) xs c (omega arith)))

module _ (next prev : ℕ → Pointer) (x : ℕ) where
  -- No entry outside a chain is the successor of an entry in it.
  pub next_stays :
      (p o : Pointer) (fs : List ℕ) (e : ℕ) (bs : List ℕ)
      → Chain next prev p o (fs ++ (e ∷ bs))
      → Absent x (fs ++ (e ∷ bs))
      → next e ≢ some x
  next_stays p o [] e [] c a = ground arith
  next_stays p o [] e (b ∷ bs) c a = ground arith
  next_stays p o (f ∷ fs) e bs c a = next_stays (some f) (next f) fs e bs c.2 a.1

  -- The predecessor of an entry that is not the first stands in front of it.
  pub prev_stays :
      (p o : Pointer) (y : ℕ) (fs : List ℕ) (e : ℕ) (bs : List ℕ)
      → Chain next prev p o (y ∷ (fs ++ (e ∷ bs)))
      → Absent x (y ∷ fs)
      → prev e ≢ some x
  prev_stays p o y [] e bs c a = ground arith
  prev_stays p o y (f ∷ fs) e bs c a = prev_stays (some y) (next y) f fs e bs c.2 a.1

pub prev_some :
    (next prev : ℕ → Pointer) (p o : Pointer) (y : ℕ) (fs : List ℕ) (e : ℕ) (bs : List ℕ)
    → Chain next prev p o (y ∷ (fs ++ (e ∷ bs)))
    → (q : ℕ) × (prev e ≡ some q)
prev_some next prev p o y [] e bs (eo, ep, (en, ey, c)) = (y, ey)
prev_some next prev p o y (f ∷ fs) e bs c = prev_some next prev (some y) (next y) f fs e bs c.2

-- What is found stands in the list and passes the test.
pub first_split :
    (test : ℕ → Bool) (xs : List ℕ)
    → (first test xs ≡ none)
      ⊎ ((e : ℕ) × (fs : List ℕ) × (bs : List ℕ) × (first test xs ≡ some e)
          × (test e ≡ true)
          × (xs ≡ fs ++ (e ∷ bs)))
unfolding first
first_split test [] = inl refl
first_split test (x ∷ xs) = elim (Bool-cases (test x)) [
  | inl passes ↦ inr (x, [], xs, rw passes, passes, refl)
  | inr fails ↦ elim (first_split test xs) [
    | inl none_left ↦ inl (rw fails none_left)
    | inr (e, fs, bs, found, passes, split) ↦
        inr (e, x ∷ fs, bs, rw fails found, passes, ap (λ l. x ∷ l) split)
  ]
]

-- What stands in the list and passes is found, or another before it.
pub first_some :
    (test : ℕ → Bool) (fs : List ℕ) (e : ℕ) (bs : List ℕ)
    → test e ≡ true
    → first test (fs ++ (e ∷ bs)) ≢ none
unfolding first
first_some test [] e bs h = rw h (λ q. cc)
first_some test (x ∷ fs) e bs h = ground (arith, first_some test fs e bs h)

-- Where nothing is found, nothing passes.
pub first-none :
    (test : ℕ → Bool) (xs : List ℕ) → first test xs ≡ none → All (λ x. test x ≡ false) xs
unfolding first
first-none test [] h = tt
first-none test (x ∷ xs) h = elim (Bool-cases (test x)) [
  | inl passes ↦ absurd (unfold first in cc (h, passes))
  | inr fails ↦ (fails, first-none test xs (rw fails at h))
]
