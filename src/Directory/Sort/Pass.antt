-- ===== src/Directory/Sort/Pass.antt =====
-- A pass doubles the length of the sorted sublists, so the loop ends with the whole list sorted.
use mathlib.Core.List.{Perm, append-nil, append_assoc}
use mathlib.Core.List.Perm
use Prim.Native.Nat.{min}
use mathlib.Core.Path.{subst, ◌∙◌}
use native.Mathlib.Decide.{dec_le}
use squashfs_tools.Common.{
  ℕ, zero, suc, ◌+◌, ◌-◌, ◌*◌, ◌≤◌, ◌<◌, ◌≡◌, ◌⊎◌, inl, inr, refl, ap, ◌++◌, List, [], ◌∷◌, arith,
  drop, take, length, length-append, length-take, length-drop, take-append-drop, ltb, Bool-cases,
  Option, some,
}
use squashfs_tools.Directory.Sort.{DirEnt, merge_pass, merge_loop, sort_directory}
use squashfs_tools.Directory.Sort.Merge.{IsSorted, merged, merge_lem}

-- A list of sorted sublists of `stride` entries each, the last of which may be shorter.
data Runs (stride : ℕ) : List DirEnt → Type 0 where
  end : {l : List DirEnt} → l ≡ [] → Runs stride l
  run :
      {l : List DirEnt} (out rest : List DirEnt)
      → l ≡ out ++ rest
      → IsSorted out
      → (length out ≡ stride) ⊎ ((length out ≤ stride) × (rest ≡ []))
      → Runs stride rest
      → Runs stride l

take_all : (n : ℕ) (l : List DirEnt) → length l ≤ n → take n l ≡ l
take_all zero [] h = refl
take_all (suc n) [] h = refl
take_all zero (x ∷ l) h = absurd (omega (arith, h))
take_all (suc n) (x ∷ l) h = ap (λ l'. x ∷ l') (take_all n l (omega arith))

drop_all : (n : ℕ) (l : List DirEnt) → length l ≤ n → drop n l ≡ []
drop_all zero [] h = refl
drop_all (suc n) [] h = refl
drop_all zero (x ∷ l) h = absurd (omega (arith, h))
drop_all (suc n) (x ∷ l) h = drop_all n l (omega arith)

take-append : (n : ℕ) (l rest : List DirEnt) → length l ≡ n → take n (l ++ rest) ≡ l
take-append zero [] rest h = refl
take-append (suc n) (x ∷ l) rest h = ap (λ l'. x ∷ l') (take-append n l rest (omega arith))
take-append zero (x ∷ l) rest h = absurd (omega (arith, h))
take-append (suc n) [] rest h = absurd (omega (arith, h))

drop-append : (n : ℕ) (l rest : List DirEnt) → length l ≡ n → drop n (l ++ rest) ≡ rest
drop-append zero [] rest h = refl
drop-append (suc n) (x ∷ l) rest h = drop-append n l rest (omega arith)
drop-append zero (x ∷ l) rest h = absurd (omega (arith, h))
drop-append (suc n) [] rest h = absurd (omega (arith, h))

-- The first sublist, and those behind it.
split : (n : ℕ) (l : List DirEnt) → Runs n l → IsSorted (take n l) × Runs n (drop n l)
split n l (end e) = rw (e, take_all n [] (omega arith), drop_all n [] (omega arith)) (tt, end refl)
split n l (run out rest e sorted (inl full) more) =
    rw (e, take-append n out rest full, drop-append n out rest full) (sorted, more)
split n l (run out rest e sorted (inr (short, last)) more) =
    rw (e, last, append-nil out, take_all n out short, drop_all n out short) (sorted, end refl)

abbrev pub pair : ℕ → List DirEnt → List DirEnt
pair n l = take n l ++ take n (drop n l)

join_pair : (n : ℕ) (l : List DirEnt) → pair n l ++ drop n (drop n l) ≡ l
join_pair n l =
    append_assoc (take n l) (take n (drop n l)) (drop n (drop n l))
    ∙ (ap (λ r. take n l ++ r) (take-append-drop n (drop n l)) ∙ take-append-drop n l)

-- What one round of the pass leaves of the list.
length-rest : (n : ℕ) (l : List DirEnt) → length (drop n (drop n l)) ≡ length l - n - n
length-rest n l = length-drop n (drop n l) ∙ ap (λ k. k - n) (length-drop n l)

length-pair :
    (n : ℕ) (l : List DirEnt)
    → length (take n l) + length (take n (drop n l)) ≡ min (n * 2) (length l)
length-pair n l = omega (arith, length-take n l, length-take n (drop n l), length-drop n l)

IsPass : (n : ℕ) (l : List DirEnt) (r : Option (List DirEnt)) → Type 0
IsPass n l r =
    (l' : List DirEnt) × (r ≡ some l') × Runs (n * 2) l' × (length l' ≡ length l) × Perm l l'

no_entries : (l : List DirEnt) → length l ≡ 0 → l ≡ []
no_entries [] h = refl
no_entries (x ∷ l) h = absurd (omega (arith, h))

module _ (n : ℕ) (positive : 0 < n) where
  full_or_last :
      (l l' : List DirEnt) (k : ℕ)
      → k ≡ min (n * 2) (length l)
      → length l' ≡ length (drop n (drop n l))
      → (k ≡ n * 2) ⊎ ((k ≤ n * 2) × (l' ≡ []))
  full_or_last l l' k e same = elim (dec_le (n * 2) (length l)) [
    | yes full ↦ inl (omega arith)
    | no short ↦ inr (omega arith, no_entries l' (omega (arith, same, length-rest n l)))
  ]

  pass :
      (fuel : ℕ) (l : List DirEnt) → length l ≤ fuel → Runs n l → IsPass n l (merge_pass fuel n l)
  unfolding IsPass merge_pass
  pass fuel [] h r = ([], refl, end refl, refl, Perm.refl [])
  pass zero (x ∷ l) h r = absurd (omega (arith, h))
  pass (suc fuel) (x ∷ l) h r =
      let l1 = take n (x ∷ l) in
      let l2 = drop n (x ∷ l) in
      let rest = drop n l2 in
      let (rest_eq, len, same, all, sorted) = merge_lem l1 l2 n in
      let (sorted1, r1) = split n (x ∷ l) r in
      let (sorted2, r2) = split n l2 r1 in
      let enough : length rest ≤ fuel = omega (arith, length-rest n (x ∷ l)) in
      let (tail, done, r', len', same') = pass fuel rest enough r2 in
      let width = len ∙ length-pair n (x ∷ l) in
      (
        merged l1 l2 n ++ tail,
        rw (rest_eq, done) refl,
        run (merged l1 l2 n) tail refl (sorted sorted1 sorted2)
            (full_or_last (x ∷ l) tail (length (merged l1 l2 n)) width len') r',
        omega (arith, length-append (merged l1 l2 n) tail, len', width, length-rest n (x ∷ l)),
        subst (λ m. Perm m (merged l1 l2 n ++ tail)) (join_pair n (x ∷ l)) (Perm.append same same'),
      )

IsResult : List DirEnt → Option (List DirEnt) → Type 0
IsResult l r = (l' : List DirEnt) × (r ≡ some l') × IsSorted l' × Perm l l'

one_run : (n : ℕ) (l : List DirEnt) → length l ≤ n → Runs n l → IsSorted l
one_run n l h r = subst IsSorted (take_all n l h) (split n l r).0

loop :
    (fuel count stride : ℕ) (l : List DirEnt)
    → 0 < stride
    → length l ≡ count
    → stride < count
    → count ≤ stride + fuel
    → Runs stride l
    → IsResult l (merge_loop fuel count stride l)
unfolding merge_loop IsResult IsPass
loop zero count stride l s e more h r = absurd (omega arith)
loop (suc fuel) count stride l s e more h r =
    let (l', done, r', len, same) = pass stride s (length l) l (omega arith) r in
    elim (Bool-cases (ltb (stride * 2) count)) [
      | inl again ↦
          let (last, ended, sorted, same') =
            loop fuel count (stride * 2) l' (omega arith) (omega (arith, len)) (ground arith)
              (omega arith) r' in
          (last, rw (done, again) ended, sorted, Perm.trans same same')
      | inr over ↦
          (l', rw (done, over) refl, one_run (stride * 2) l' (ground (arith, len)) r', same)
    ]

singletons : (l : List DirEnt) → Runs 1 l
singletons [] = end refl
singletons (x ∷ l) = run (x ∷ []) l refl (tt, tt) (inl refl) (singletons l)

-- The loops of sort_directory end, and it gives a list with the same entries, each as often, in
-- which no entry stands before one whose name strcmp puts first.
pub sort_directory_lem :
    (dirs : List DirEnt)
    → (l : List DirEnt) × (sort_directory dirs ≡ some l) × IsSorted l × Perm dirs l
unfolding sort_directory IsResult
sort_directory_lem dirs = elim (Bool-cases (ltb (length dirs) 2)) [
  | inl short ↦
      (dirs, rw short refl, one_run 1 dirs (ground arith) (singletons dirs), Perm.refl dirs)
  | inr long ↦ rw long (
      loop (length dirs) (length dirs) 1 dirs (omega arith) refl (ground arith) (omega arith)
        (singletons dirs))
]
