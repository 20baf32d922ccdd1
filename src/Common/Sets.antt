-- ===== src/Common/Sets.antt =====
-- Lists without repetition, membership by recursion, and memory as a function with updates.
use Prim.Native.Nat.{ℕ, ◌≤◌}
use mathlib.Core.Path.{◌≡◌, refl, ap, sym, subst, subst₂}
use mathlib.Core.Logic.{◌≢◌, ◌⊎◌, inl, inr}
use mathlib.Core.List.{List, [], ◌∷◌, ◌++◌}
use native.Mathlib.Decide.{ℕ_discrete}
use native.Mathlib.Omega.{arith}
use squashfs_tools.Common.Tests.{◌==◌, if◌then◌else◌}
use squashfs_tools.Common.Lists.{length, length-append}

-- Memory: a write at `k`.
abbrev pub update {ℓ} : {A : Type ℓ} → (ℕ → A) → ℕ → A → ℕ → A
update f k v j = if k == j then v else f j

module _ {ℓ κ} {A : Type ℓ} (P : A → Type κ) where
  abbrev pub All : List A → Type κ
  All [] = Unit
  All (x ∷ xs) = P x × All xs

  pub All-append : (xs ys : List A) → All xs → All ys → All (xs ++ ys)
  All-append [] ys hx hy = hy
  All-append (x ∷ xs) ys hx hy = (hx.0, All-append xs ys hx.1 hy)

  pub All-left : (xs ys : List A) → All (xs ++ ys) → All xs
  All-left [] ys h = tt
  All-left (x ∷ xs) ys h = (h.0, All-left xs ys h.1)

  pub All-right : (xs ys : List A) → All (xs ++ ys) → All ys
  All-right [] ys h = h
  All-right (x ∷ xs) ys h = All-right xs ys h.1

pub All-map {ℓ κ κ'} :
    {A : Type ℓ} (P : A → Type κ) (Q : A → Type κ') (xs : List A)
    → ((x : A) → P x → Q x)
    → All P xs
    → All Q xs
All-map P Q [] f h = tt
All-map P Q (x ∷ xs) f h = (f x h.0, All-map P Q xs f h.1)

-- `a` does not stand in the list.
abbrev pub Absent : ℕ → List ℕ → Type 0
Absent a xs = All (λ x. a ≢ x) xs

abbrev pub Distinct : List ℕ → Type 0
Distinct [] = Unit
Distinct (x ∷ xs) = Absent x xs × Distinct xs

-- All that is left of a list without repetition when one element is taken out.
pub Distinct-drop :
    (xs ys : List ℕ) (e : ℕ) → Distinct (xs ++ (e ∷ ys)) → Distinct (xs ++ ys) × Absent e (xs ++ ys)
Distinct-drop [] ys e d = (d.1, d.0)
Distinct-drop (x ∷ xs) ys e d =
    let (d', a) = Distinct-drop xs ys e d.1 in
    let left : Absent x xs = All-left (λ y. x ≢ y) xs (e ∷ ys) d.0 in
    let right : Absent x (e ∷ ys) = All-right (λ y. x ≢ y) xs (e ∷ ys) d.0 in
    ((All-append (λ y. x ≢ y) xs ys left right.1, d'), (λ p. right.0 (sym p), a))

module _ {ℓ} {A : Type ℓ} where
  pub update_self : (f : ℕ → A) (k : ℕ) (v : A) → update f k v k ≡ v
  update_self f k v = ground arith

  pub update_ne : (f : ℕ → A) (k : ℕ) (v : A) (j : ℕ) → k ≢ j → update f k v j ≡ f j
  update_ne f k v j h = ground arith

-- To prove something of each place of two memories that were written at one place.
pub update_cases {ℓ κ ι} :
    {A : Type ℓ} {B : Type κ} (P : ℕ → A → B → Type ι) (f : ℕ → A) (g : ℕ → B) (k : ℕ) (v : A)
    (w : B)
    → P k v w
    → ((j : ℕ) → k ≢ j → P j (f j) (g j))
    → (j : ℕ) → P j (update f k v j) (update g k w j)
update_cases P f g k v w here there j = elim (ℕ_discrete k j) [
  | yes q ↦
      subst (λ i. P i (update f k v i) (update g k w i)) q
        (subst₂ (λ x y. P k x y) (sym (update_self f k v)) (sym (update_self g k w)) here)
  | no n ↦
      subst₂ (λ x y. P j x y) (sym (update_ne f k v j n)) (sym (update_ne g k w j n)) (there j n)
]

pub All-zip {ℓ κ ι} :
    {A : Type ℓ} (P : A → Type κ) (Q : A → Type ι) (xs : List A)
    → All P xs
    → All Q xs
    → All (λ x. P x × Q x) xs
All-zip P Q [] p q = tt
All-zip P Q (x ∷ xs) p q = ((p.0, q.0), All-zip P Q xs p.1 q.1)

-- A new element at the end.
pub Distinct-snoc : (xs : List ℕ) (e : ℕ) → Distinct xs → Absent e xs → Distinct (xs ++ (e ∷ []))
Distinct-snoc [] e d a = (tt, tt)
Distinct-snoc (x ∷ xs) e d a =
    (All-append (λ y. x ≢ y) xs (e ∷ []) d.0 ((λ q. a.0 (sym q)), tt), Distinct-snoc xs e d.1 a.1)

pub Distinct-left : (xs ys : List ℕ) → Distinct (xs ++ ys) → Distinct xs
Distinct-left [] ys d = tt
Distinct-left (x ∷ xs) ys d = (All-left (λ y. x ≢ y) xs ys d.0, Distinct-left xs ys d.1)

-- `a` stands in the list.
abbrev pub In : ℕ → List ℕ → Type 0
In a [] = ⊥
In a (x ∷ xs) = (a ≡ x) ⊎ In a xs

pub In-split :
    (a : ℕ) (xs : List ℕ) → In a xs → (fs : List ℕ) × (bs : List ℕ) × (xs ≡ fs ++ (a ∷ bs))
In-split a [] h = absurd h
In-split a (x ∷ xs) (inl e) = ([], xs, ap (λ y. y ∷ xs) (sym e))
In-split a (x ∷ xs) (inr h) = let (fs, bs, e) = In-split a xs h in (x ∷ fs, bs, ap (λ l. x ∷ l) e)

pub In-middle : (a : ℕ) (fs bs : List ℕ) → In a (fs ++ (a ∷ bs))
In-middle a [] bs = inl refl
In-middle a (x ∷ fs) bs = inr (In-middle a fs bs)

pub In-drop : (a e : ℕ) (fs bs : List ℕ) → a ≢ e → In a (fs ++ (e ∷ bs)) → In a (fs ++ bs)
In-drop a e [] bs ne (inl q) = absurd (ne q)
In-drop a e [] bs ne (inr h) = h
In-drop a e (x ∷ fs) bs ne (inl q) = inl q
In-drop a e (x ∷ fs) bs ne (inr h) = inr (In-drop a e fs bs ne h)

pub In-front : (a : ℕ) (xs ys : List ℕ) → In a xs → In a (xs ++ ys)
In-front a [] ys h = absurd h
In-front a (x ∷ xs) ys (inl q) = inl q
In-front a (x ∷ xs) ys (inr h) = inr (In-front a xs ys h)

pub All-In {ℓ} : (P : ℕ → Type ℓ) (a : ℕ) (xs : List ℕ) → All P xs → In a xs → P a
All-In P a [] h i = absurd i
All-In P a (x ∷ xs) h (inl q) = subst (λ y. P y) (sym q) h.0
All-In P a (x ∷ xs) h (inr i) = All-In P a xs h.1 i

-- What holds of every element of a list that one element was taken out of.
pub All-drop {ℓ} :
    (P : ℕ → Type ℓ) (e : ℕ) (fs bs : List ℕ) → All P (fs ++ (e ∷ bs)) → All P (fs ++ bs)
All-drop P e fs bs h = All-append P fs bs (All-left P fs (e ∷ bs) h) (All-right P fs (e ∷ bs) h).1

-- A list without repetition whose elements stand in another is not longer.
pub length-le_of_In : (xs ys : List ℕ) → Distinct xs → All (λ x. In x ys) xs → length xs ≤ length ys
length-le_of_In [] ys d h = omega arith
length-le_of_In (x ∷ xs) ys (a, d) (i, h) =
    let (fs, bs, split) = In-split x ys i in
    let h' : All (λ y. In y (fs ++ bs)) xs =
      All-map (λ y. In y ys × (x ≢ y)) (λ y. In y (fs ++ bs)) xs
        (λ y p. In-drop y x fs bs (λ q. p.1 (sym q)) (subst (λ l. In y l) split p.0))
        (All-zip (λ y. In y ys) (λ y. x ≢ y) xs h a) in
    omega (
      arith,
      length-le_of_In xs (fs ++ bs) d h',
      ap length split,
      length-append fs (x ∷ bs),
      length-append fs bs,
    )
