-- ===== src/FreeList/Insert.antt =====
-- insert_NAME_list puts the entry at the end of the list.
use mathlib.Core.Path.{subst}
use squashfs_tools.Common.{
  ℕ, ◌≡◌, ◌≢◌, refl, sym, ap, ◌∙◌, none, some, List, [], ◌∷◌, ◌++◌, arith, update, All, Absent,
  All-map, All-zip, Distinct-snoc,
}
use squashfs_tools.Pointer.{Pointer}
use squashfs_tools.FreeList.{Links, insert, insert_at}
use squashfs_tools.FreeList.Ring.{Represents, last, last-ne, Way-last, Way-append, reroute}

-- The memory that the insertion behind `k`, the last entry, leaves.
abbrev extended : Links → ℕ → ℕ → ℕ → Links
extended l x k e = record {
  next = update (update l.next e (some x)) k (some e);
  prev = update (update l.prev e (some k)) x (some e);
  head = l.head;
}

insert-extended :
    (l : Links) (x k e : ℕ)
    → l.head ≡ some x
    → l.prev x ≡ some k
    → e ≢ x
    → insert l e ≡ extended l x k e
unfolding insert
insert-extended l x k e h p ne =
    let q : update l.prev e (l.prev x) x ≡ some k = ground arith in
    ap (λ r. insert_at l r e) h ∙ rw q (rw p)

insert_first : (l : Links) (e : ℕ) → l.head ≡ none → Represents (insert l e) (e ∷ [])
unfolding insert
insert_first l e h = rw (h, insert) (refl, (ground arith, ground arith), (tt, tt))

-- INSERT_LIST of an entry that is not in the circular list puts it at the end.
pub insert-Represents :
    (l : Links) (e : ℕ) (xs : List ℕ)
    → Represents l xs
    → Absent e xs
    → Represents (insert l e) (xs ++ (e ∷ []))
insert-Represents l e [] r a = insert_first l e r
insert-Represents l e (x ∷ xs) (h, w, d) a =
    let k : ℕ = last x xs in
    let (nk, pk) = Way-last l.next l.prev x xs x w in
    let n' : ℕ → Pointer = update (update l.next e (some x)) k (some e) in
    let p' : ℕ → Pointer = update (update l.prev e (some k)) x (some e) in
    let apart : All (λ y. (e ≢ y) × (x ≢ y)) xs = All-zip (λ y. e ≢ y) (λ y. x ≢ y) xs a.1 d.0 in
    subst (λ (m : Links). Represents m (x ∷ (xs ++ (e ∷ []))))
      (sym (insert-extended l x k e h pk a.0))
      (
        h,
        Way-append n' p' x xs e [] x
            (reroute l.next l.prev n' p' x xs k x e refl w d
              (All-map (λ y. e ≢ y) (λ y. y ≢ k → n' y ≡ l.next y) (x ∷ xs)
                (λ y ne nk. ground arith) a)
              (All-map (λ y. (e ≢ y) × (x ≢ y)) (λ y. p' y ≡ l.prev y) xs (λ y ne. ground arith)
                apart)
              (ground arith, ground arith))
            (ground (arith, last-ne e x xs a), ground arith),
        Distinct-snoc (x ∷ xs) e d a,
      )
