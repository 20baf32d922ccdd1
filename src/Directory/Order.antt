-- ===== src/Directory/Order.antt =====
-- strcmp is a strict order of names, and what check_directory accepts has every name once.
use Prim.Native.Nat.{Ordering}
use squashfs_tools.Common.{
  ℕ, ◌≡◌, ◌≢◌, ◌↔◌, refl, sym, ◌∙◌, ap, ap₂, true, ◌&&◌, List, [], ◌∷◌, arith, All, All-map,
}
use squashfs_tools.Directory.{strcmp, is_less, ascending, check_directory}

-- `a` stands before `b`.
abbrev pub Before : List ℕ → List ℕ → Type 0
Before a b = strcmp a b ≡ Ordering.lt

strcmp_self : (a : List ℕ) → strcmp a a ≡ Ordering.eq
unfolding strcmp
strcmp_self [] = refl
strcmp_self (x ∷ a) = ground (arith, strcmp_self a)

pub strcmp_eq : (a b : List ℕ) → strcmp a b ≡ Ordering.eq → a ≡ b
unfolding strcmp
strcmp_eq [] [] h = refl
strcmp_eq [] (y ∷ b) h = cc
strcmp_eq (x ∷ a) [] h = cc
strcmp_eq (x ∷ a) (y ∷ b) h = ap₂ (λ u v. u ∷ v) (ground arith) (strcmp_eq a b (ground arith))

pub Before-trans : (a b c : List ℕ) → Before a b → Before b c → Before a c
unfolding strcmp
Before-trans [] [] c h k = k
Before-trans [] (y ∷ b) [] h k = cc
Before-trans [] (y ∷ b) (z ∷ c) h k = refl
Before-trans (x ∷ a) [] c h k = cc
Before-trans (x ∷ a) (y ∷ b) [] h k = k
Before-trans (x ∷ a) (y ∷ b) (z ∷ c) h k = ground (arith, Before-trans a b c)

pub strcmp_flip : (a b : List ℕ) → strcmp a b ≡ Ordering.gt → Before b a
unfolding strcmp
strcmp_flip [] [] h = cc
strcmp_flip [] (y ∷ b) h = cc
strcmp_flip (x ∷ a) [] h = refl
strcmp_flip (x ∷ a) (y ∷ b) h = ground (arith, strcmp_flip a b)

-- Each name stands before all those behind it.
abbrev pub IsAscending : List (List ℕ) → Type 0
IsAscending [] = Unit
IsAscending (a ∷ names) = All (λ b. Before a b) names × IsAscending names

ascending_iff : (names : List (List ℕ)) → (ascending names ≡ true) ↔ IsAscending names
unfolding ascending
ascending_iff [] = (λ h. tt, λ h. refl)
ascending_iff (a ∷ []) = (λ h. (tt, tt), λ h. refl)
ascending_iff (a ∷ b ∷ names) =
    elim (strcmp a b)
        as (λ o.
          strcmp a b ≡ o
          → (is_less o && ascending (b ∷ names) ≡ true) ↔ IsAscending (a ∷ b ∷ names)) [
            | Ordering.lt ↦ λ e. (
              λ h.
                  let later = (ascending_iff (b ∷ names)).0 h in
                  (
                    (
                      e,
                      All-map (λ c. Before b c) (λ c. Before a c) names (λ c. Before-trans a b c e)
                          later.0,
                    ),
                    later,
                  ),
              λ h. (ascending_iff (b ∷ names)).1 h.1,
            )
            | Ordering.eq ↦ λ e. ((λ h. cc), (λ h. ground (arith, e, h.0.0)))
            | Ordering.gt ↦ λ e. ((λ h. cc), (λ h. ground (arith, e, h.0.0)))
          ]
      refl

Before-once : (a b : List ℕ) → Before a b → a ≢ b
Before-once a b h q =
    let e : Ordering.eq ≡ Ordering.lt = sym (strcmp_self b) ∙ (ap (λ c. strcmp c b) (sym q) ∙ h) in
    cc

-- No name stands twice.
abbrev pub IsOnce : List (List ℕ) → Type 0
IsOnce [] = Unit
IsOnce (a ∷ names) = All (λ b. a ≢ b) names × IsOnce names

-- check_directory accepts exactly the lists of names in which each stands, by strcmp, before all
-- those behind it.
pub check_directory_iff :
    (names : List (List ℕ)) → (check_directory names ≡ true) ↔ IsAscending names
unfolding check_directory
check_directory_iff [] = (λ h. tt, λ h. refl)
check_directory_iff (a ∷ []) = (λ h. (tt, tt), λ h. refl)
check_directory_iff (a ∷ b ∷ names) = ascending_iff (a ∷ b ∷ names)

ascending-IsOnce : (names : List (List ℕ)) → IsAscending names → IsOnce names
ascending-IsOnce [] h = tt
ascending-IsOnce (a ∷ names) h =
    (All-map (λ b. Before a b) (λ b. a ≢ b) names (Before-once a) h.0, ascending-IsOnce names h.1)

-- In a directory that check_directory accepts no name stands twice.
pub check_directory-IsOnce : (names : List (List ℕ)) → check_directory names ≡ true → IsOnce names
check_directory-IsOnce names h = ascending-IsOnce names ((check_directory_iff names).0 h)
