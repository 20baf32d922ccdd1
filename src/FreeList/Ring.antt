-- ===== src/FreeList/Ring.antt =====
-- A circular list in memory, as the list of its entries.
use mathlib.Core.Path.{subst}
use squashfs_tools.Common.{
  ℕ, ◌≡◌, ◌≢◌, ◌∙◌, none, some, List, [], ◌∷◌, ◌++◌, update, update_ne, All, All-map, Absent,
  Distinct,
}
use squashfs_tools.Pointer.{Pointer}
use squashfs_tools.FreeList.{Links}

-- Two entries that follow one another.
abbrev pub Joined : (ℕ → Pointer) → (ℕ → Pointer) → ℕ → ℕ → Type 0
Joined next prev a b = (next a ≡ some b) × (prev b ≡ some a)

-- From `a` the links lead through `xs` to `z`, both ways.
abbrev pub Way : (ℕ → Pointer) → (ℕ → Pointer) → ℕ → List ℕ → ℕ → Type 0
Way next prev a [] z = Joined next prev a z
Way next prev a (x ∷ xs) z = Joined next prev a x × Way next prev x xs z

-- The list variable and the links stand for `xs`, the first entry first.
abbrev pub Represents : Links → List ℕ → Type 0
Represents l [] = l.head ≡ none
Represents l (x ∷ xs) = (l.head ≡ some x) × Way l.next l.prev x xs x × Distinct (x ∷ xs)

-- The entry from which a way takes its last step.
abbrev pub last : ℕ → List ℕ → ℕ
last a [] = a
last a (x ∷ xs) = last x xs

pub last-ne : (a x : ℕ) (xs : List ℕ) → Absent a (x ∷ xs) → a ≢ last x xs
last-ne a x [] h = h.0
last-ne a x (y ∷ ys) h = last-ne a y ys h.1

module _ (next prev : ℕ → Pointer) where
  pub Way-last :
      (a : ℕ) (xs : List ℕ) (z : ℕ) → Way next prev a xs z → Joined next prev (last a xs) z
  Way-last a [] z w = w
  Way-last a (x ∷ xs) z w = Way-last x xs z w.1

  pub Way-append :
      (a : ℕ) (fs : List ℕ) (e : ℕ) (bs : List ℕ) (z : ℕ)
      → Way next prev a fs e
      → Way next prev e bs z
      → Way next prev a (fs ++ (e ∷ bs)) z
  Way-append a [] e bs z v w = (v, w)
  Way-append a (f ∷ fs) e bs z v w = (v.0, Way-append f fs e bs z v.1 w)

  pub Way-split :
      (a : ℕ) (fs : List ℕ) (e : ℕ) (bs : List ℕ) (z : ℕ)
      → Way next prev a (fs ++ (e ∷ bs)) z
      → Way next prev a fs e × Way next prev e bs z
  Way-split a [] e bs z w = w
  Way-split a (f ∷ fs) e bs z w = let (v, w') = Way-split f fs e bs z w.1 in ((w.0, v), w')

module _ (next prev next' prev' : ℕ → Pointer) where
  -- A way whose last step is led to another end.
  pub reroute :
      (a : ℕ) (xs : List ℕ) (l z z' : ℕ)
      → l ≡ last a xs
      → Way next prev a xs z
      → Distinct (a ∷ xs)
      → All (λ x. x ≢ l → next' x ≡ next x) (a ∷ xs)
      → All (λ x. prev' x ≡ prev x) xs
      → Joined next' prev' l z'
      → Way next' prev' a xs z'
  reroute a [] l z z' e w d n p j = subst (λ k. Joined next' prev' k z') e j
  reroute a (x ∷ xs) l z z' e (w, ws) (ax, d) (n, ns) (p, ps) j =
      ((n (λ q. last-ne a x xs ax (q ∙ e)) ∙ w.0, p ∙ w.1), reroute x xs l z z' e ws d ns ps j)

  -- A way of which no link was written.
  pub Way-frame :
      (a : ℕ) (xs : List ℕ) (z : ℕ)
      → Way next prev a xs z
      → All (λ x. next' x ≡ next x) (a ∷ xs)
      → All (λ x. prev' x ≡ prev x) xs
      → prev' z ≡ prev z
      → Way next' prev' a xs z
  Way-frame a [] z w n p e = (n.0 ∙ w.0, e ∙ w.1)
  Way-frame a (x ∷ xs) z (w, ws) (n, ns) (p, ps) e =
      ((n ∙ w.0, p ∙ w.1), Way-frame x xs z ws ns ps e)

-- Links written at an entry that is not in the list leave the list alone.
pub Represents-frame :
    (l : Links) (e : ℕ) (n p : Pointer) (xs : List ℕ)
    → Absent e xs
    → Represents l xs
    → Represents (record l { next = update l.next e n; prev = update l.prev e p }) xs
Represents-frame l e n p [] a r = r
Represents-frame l e n p (x ∷ xs) a (h, w, d) = (
  h,
  Way-frame l.next l.prev (update l.next e n) (update l.prev e p) x xs x w
      (All-map (λ y. e ≢ y) (λ y. update l.next e n y ≡ l.next y) (x ∷ xs)
        (λ y ne. update_ne l.next e n y ne) a)
      (All-map (λ y. e ≢ y) (λ y. update l.prev e p y ≡ l.prev y) xs
        (λ y ne. update_ne l.prev e p y ne) a.1)
      (update_ne l.prev e p x a.0),
  d,
)
