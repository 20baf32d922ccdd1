-- ===== src/FreeList/Remove.antt =====
-- remove_NAME_list takes the entry out of the list, wherever it stands.
use mathlib.Core.List.{append-nil}
use squashfs_tools.Common.{
  ℕ, ◌≡◌, ◌≢◌, refl, sym, ◌∙◌, none, some, List, [], ◌∷◌, ◌++◌, arith, Absent, Distinct, All-map,
  All-zip, All-left, All-right, Distinct-drop, Distinct-left,
}
use squashfs_tools.Pointer.{IsJoined}
use squashfs_tools.FreeList.{Links, remove}
use squashfs_tools.FreeList.Ring.{
  Way, Represents, last, last-ne, Way-last, Way-append, Way-split, reroute, Way-frame,
}

-- An entry between `a` and `b`, neither of which it is.
module _ (l : Links) (e a b : ℕ) (pe : l.prev e ≡ some a) (ne : l.next e ≡ some b) where
  remove-IsJoined : a ≢ e → b ≢ e → IsJoined l.next l.prev (remove l e).next (remove l e).prev e
  unfolding remove
  remove-IsJoined ae be = record {
    next_same = λ x xe p. ground arith;
    next_joined = λ x xe p. ground arith;
    prev_same = λ x xe p. ground arith;
    prev_joined = λ x xe p. ground arith;
  }

  head-remove_other : (x : ℕ) → l.head ≡ some x → a ≢ e → b ≢ e → x ≢ e → (remove l e).head ≡ some x
  unfolding remove
  head-remove_other x h ae be xe = ground arith

  head-remove_self : l.head ≡ some e → a ≢ e → b ≢ e → (remove l e).head ≡ some b
  unfolding remove
  head-remove_self h ae be = ground arith

head-remove_only :
    (l : Links) (e : ℕ) → l.prev e ≡ some e → l.next e ≡ some e → (remove l e).head ≡ none
unfolding remove
head-remove_only l e p n = ground arith

-- The first entry is removed.
remove_head : (l : Links) (e : ℕ) (ys : List ℕ) → Represents l (e ∷ ys) → Represents (remove l e) ys
remove_head l e [] (h, (ne, pe), d) = head-remove_only l e pe ne
remove_head l e (y ∷ ys) (h, (joined, w), ((ey, a), d)) =
    let k : ℕ = last y ys in
    let (nk, pk) = Way-last l.next l.prev y ys e w in
    let ke : k ≢ e = λ q. last-ne e y ys (ey, a) (sym q) in
    let ye : y ≢ e = λ q. ey (sym q) in
    let j : IsJoined l.next l.prev (remove l e).next (remove l e).prev e =
      remove-IsJoined l e k y pk joined.0 ke ye in
    (
      head-remove_self l e k y pk joined.0 h ke ye,
      reroute l.next l.prev (remove l e).next (remove l e).prev y ys k e y refl w d
          (All-map (λ z. e ≢ z) (λ z. z ≢ k → (remove l e).next z ≡ l.next z) (y ∷ ys)
            (λ z ez zk. j.next_same z (λ q. ez (sym q)) (λ q. zk (cc))) (ey, a))
          (All-map (λ z. (e ≢ z) × (y ≢ z)) (λ z. (remove l e).prev z ≡ l.prev z) ys
            (λ z ne. j.prev_same z (λ q. ne.0 (sym q)) (λ q. ne.1 (cc)))
            (All-zip (λ z. e ≢ z) (λ z. y ≢ z) ys a d.0))
          (j.next_joined k ke pk ∙ joined.0, j.prev_joined y ye joined.0 ∙ pk),
      d,
    )

last-Absent : (x : ℕ) (fs bs : List ℕ) → Distinct (x ∷ (fs ++ bs)) → Absent (last x fs) bs
last-Absent x [] bs d = d.0
last-Absent x (f ∷ fs) bs d = last-Absent f fs bs d.1

-- An entry with others in front of it is removed, and `b` stands behind it.
module _ (l : Links) (e x : ℕ) (fs : List ℕ) (b : ℕ) (h : l.head ≡ some x)
    (v : Way l.next l.prev x fs e) (ne : l.next e ≡ some b) (d : Distinct (x ∷ fs))
    (ae : Absent e (x ∷ fs)) (be : b ≢ e) (ab : Absent b fs) where
  ahead :
      IsJoined l.next l.prev (remove l e).next (remove l e).prev e
      × ((remove l e).head ≡ some x)
      × Way (remove l e).next (remove l e).prev x fs b
      × (l.prev e ≡ some (last x fs))
  ahead =
      let k : ℕ = last x fs in
      let (nk, pk) = Way-last l.next l.prev x fs e v in
      let ke : k ≢ e = λ q. last-ne e x fs ae (sym q) in
      let j : IsJoined l.next l.prev (remove l e).next (remove l e).prev e =
        remove-IsJoined l e k b pk ne ke be in
      (
        j,
        head-remove_other l e k b pk ne x h ke be (λ q. ae.0 (sym q)),
        reroute l.next l.prev (remove l e).next (remove l e).prev x fs k e b refl v d
            (All-map (λ z. e ≢ z) (λ z. z ≢ k → (remove l e).next z ≡ l.next z) (x ∷ fs)
              (λ z ez zk. j.next_same z (λ q. ez (sym q)) (λ q. zk (cc))) ae)
            (All-map (λ z. (e ≢ z) × (b ≢ z)) (λ z. (remove l e).prev z ≡ l.prev z) fs
              (λ z ez. j.prev_same z (λ q. ez.0 (sym q)) (λ q. ez.1 (cc)))
              (All-zip (λ z. e ≢ z) (λ z. b ≢ z) fs ae.1 ab))
            (j.next_joined k ke pk ∙ ne, j.prev_joined b be ne ∙ pk),
        pk,
      )

remove_inside :
    (l : Links) (e x : ℕ) (fs bs : List ℕ)
    → Represents l (x ∷ (fs ++ (e ∷ bs)))
    → Represents (remove l e) (x ∷ (fs ++ bs))
remove_inside l e x fs [] (h, w, d) =
    let (d', ae) = Distinct-drop (x ∷ fs) [] e d in
    let dx : Distinct (x ∷ fs) = Distinct-left (x ∷ fs) [] d' in
    let (v, u) = Way-split l.next l.prev x fs e [] x w in
    let aex : Absent e (x ∷ fs) = All-left (λ z. e ≢ z) (x ∷ fs) [] ae in
    let (j, h', w', pk) = ahead l e x fs x h v u.0 dx aex (λ q. aex.0 (sym q)) dx.0 in
    rw append-nil (h', w', dx)
remove_inside l e x fs (b ∷ bs) (h, w, d) =
    let (d', ae) = Distinct-drop (x ∷ fs) (b ∷ bs) e d in
    let dx : Distinct (x ∷ fs) = Distinct-left (x ∷ fs) (b ∷ bs) d' in
    let (v, u) = Way-split l.next l.prev x fs e (b ∷ bs) x w in
    let aex : Absent e (x ∷ fs) = All-left (λ z. e ≢ z) (x ∷ fs) (b ∷ bs) ae in
    let aeb : Absent e (b ∷ bs) = All-right (λ z. e ≢ z) (x ∷ fs) (b ∷ bs) ae in
    let (db, ab) = Distinct-drop (x ∷ fs) bs b d' in
    let abb : Absent b bs = All-right (λ z. b ≢ z) (x ∷ fs) bs ab in
    let abx : Absent b (x ∷ fs) = All-left (λ z. b ≢ z) (x ∷ fs) bs ab in
    let far : Absent (last x fs) (b ∷ bs) = last-Absent x fs (b ∷ bs) d' in
    let (j, h', w', pk) = ahead l e x fs b h v u.0.0 dx aex (λ q. aeb.0 (sym q)) abx.1 in
    (
      h',
      Way-append (remove l e).next (remove l e).prev x fs b bs x w' (
          Way-frame l.next l.prev (remove l e).next (remove l e).prev b bs x u.1
            (All-map (λ z. (e ≢ z) × (last x fs ≢ z)) (λ z. (remove l e).next z ≡ l.next z) (b ∷ bs)
              (λ z n. j.next_same z (λ q. n.0 (sym q)) (λ q. n.1 (cc)))
              (All-zip (λ z. e ≢ z) (λ z. last x fs ≢ z) (b ∷ bs) aeb far))
            (All-map (λ z. (e ≢ z) × (b ≢ z)) (λ z. (remove l e).prev z ≡ l.prev z) bs
              (λ z n. j.prev_same z (λ q. n.0 (sym q)) (λ q. n.1 (cc)))
              (All-zip (λ z. e ≢ z) (λ z. b ≢ z) bs aeb.1 abb))
            (j.prev_same x (λ q. aex.0 (sym q)) (λ q. abx.0 (cc)))),
      d',
    )

-- REMOVE_LIST of an entry of a circular list, wherever it stands, leaves the others, in their
-- order.
pub remove-Represents :
    (l : Links) (e : ℕ) (fs bs : List ℕ)
    → Represents l (fs ++ (e ∷ bs))
    → Represents (remove l e) (fs ++ bs)
remove-Represents l e [] bs r = remove_head l e bs r
remove-Represents l e (x ∷ fs) bs r = remove_inside l e x fs bs r
