-- ===== src/Directory/Sort/Merge.antt =====
-- A merge of two sorted sublists is sorted, and has their entries.
use mathlib.Core.List.{Perm, perm_middle, append-nil}
use mathlib.Core.List.Perm
use Prim.Native.Nat.{Ordering}
use squashfs_tools.Common.{
  ℕ, zero, suc, ◌+◌, ◌≡◌, ◌⊎◌, inl, inr, refl, sym, ◌++◌, List, [], ◌∷◌, arith, All, All-map, drop,
  take, length,
}
use squashfs_tools.Directory.{strcmp}
use squashfs_tools.Directory.Order.{Before, Before-trans, strcmp_eq, strcmp_flip}
use squashfs_tools.Directory.Sort.{DirEnt, merge}

-- Neither stands behind the other's name.
abbrev pub Le : DirEnt → DirEnt → Type 0
Le x y = Before x.name y.name ⊎ (x.name ≡ y.name)

pub Le_trans : (x y z : DirEnt) → Le x y → Le y z → Le x z
Le_trans x y z (inl h) (inl k) = inl (Before-trans x.name y.name z.name h k)
Le_trans x y z (inl h) (inr q) = inl (rw (sym q) h)
Le_trans x y z (inr q) (inl k) = inl (rw q k)
Le_trans x y z (inr q) (inr r) = inr (rw q r)

abbrev pub IsSorted : List DirEnt → Type 0
IsSorted [] = Unit
IsSorted (x ∷ l) = All (λ y. Le x y) l × IsSorted l

-- The entries that a merge puts out.
abbrev pub merged : List DirEnt → List DirEnt → ℕ → List DirEnt
merged l1 l2 n = (merge l1 l2 n).0

abbrev IsMerge : List DirEnt → List DirEnt → ℕ → List DirEnt × List DirEnt → Type 1
IsMerge l1 l2 n r =
    (r.1 ≡ drop n l2)
    × (length r.0 ≡ length l1 + length (take n l2))
    × Perm (l1 ++ take n l2) r.0
    × ((P : DirEnt → Type 0) → All P l1 → All P (take n l2) → All P r.0)
    × (IsSorted l1 → IsSorted (take n l2) → IsSorted r.0)

pub merge_lem : (l1 l2 : List DirEnt) (n : ℕ) → IsMerge l1 l2 n (merge l1 l2 n)
unfolding merge
merge_lem [] l2 n = (refl, ground arith, Perm.refl (take n l2), λ P a b. b, λ a b. b)
merge_lem (x ∷ l1) [] zero =
    (refl, ground arith, rw (append-nil l1) (Perm.refl (x ∷ l1)), (λ P a b. a), λ a b. a)
merge_lem (x ∷ l1) [] (suc n) =
    (refl, ground arith, rw (append-nil l1) (Perm.refl (x ∷ l1)), (λ P a b. a), λ a b. a)
merge_lem (x ∷ l1) (y ∷ l2) zero =
    (refl, ground arith, rw (append-nil l1) (Perm.refl (x ∷ l1)), (λ P a b. a), λ a b. a)
merge_lem (x ∷ l1) (y ∷ l2) (suc n) =
    let (rest, len, same, all, sorted) = merge_lem l1 (y ∷ l2) (suc n) in
    let (rest', len', same', all', sorted') = merge_lem (x ∷ l1) l2 n in
    let first : Le x y
        → IsMerge (x ∷ l1) (y ∷ l2) (suc n)
            (x ∷ merged l1 (y ∷ l2) (suc n), (merge l1 (y ∷ l2) (suc n)).1) =
      (λ le. (
        rest,
        omega (arith, len),
        Perm.cons x same,
        (λ P a b. (a.0, all P a.1 b)),
        λ a b. (
          all (λ z. Le x z) a.0
              (
                le,
                All-map (λ z. Le y z) (λ z. Le x z) (take n l2) (λ z k. Le_trans x y z le k) b.0,
              ),
          sorted a.1 b,
        ),
      )) in
    elim (strcmp x.name y.name)
        as (λ o.
          strcmp x.name y.name ≡ o
          → IsMerge (x ∷ l1) (y ∷ l2) (suc n) (elim o [
            | Ordering.gt ↦ let (out, rest) = merge (x ∷ l1) l2 n in (y ∷ out, rest)
            | _ ↦ let (out, rest) = merge l1 (y ∷ l2) (suc n) in (x ∷ out, rest)
          ])) [
            | Ordering.lt ↦ λ e. first (inl e)
            | Ordering.eq ↦ λ e. first (inr (strcmp_eq x.name y.name e))
            | Ordering.gt ↦ λ e.
                let le : Le y x = inl (strcmp_flip x.name y.name e) in
                (
                  rest',
                  omega (arith, len'),
                  Perm.trans (perm_middle {a = y} (x ∷ l1) (take n l2)) (Perm.cons y same'),
                  (λ P a b. (b.0, all' P a b.1)),
                  λ a b. (
                    all' (λ z. Le y z)
                        (
                          le,
                          All-map (λ z. Le x z) (λ z. Le y z) l1 (λ z k. Le_trans y x z le k) a.0,
                        )
                        b.0,
                    sorted' a b.1,
                  ),
                )
          ]
      refl
