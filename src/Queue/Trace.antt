-- ===== src/Queue/Trace.antt =====
-- Threads that share a queue. Each call holds the mutex, so what the threads do is an interleaving
-- of whole calls of queue_put and queue_get.
use mathlib.Core.Path.{subst, subst₂, ◌≡⟨◌⟩◌, ◌∎}
use mathlib.Core.List.{append_assoc, append-nil, map-append}
use squashfs_tools.Common.{
  ◌≤◌, ◌≡◌, ◌⊎◌, inl, inr, sym, ap, Option, some, List, [], ◌∷◌, ◌++◌, map, arith, length,
}
use squashfs_tools.Queue.{Queue, put, get}
use squashfs_tools.Queue.Inv.{IsValid, put-IsValid, get-IsValid}
use squashfs_tools.Queue.Refine.{contents, put_refines, get_refines, length-contents}

-- `Run q ps gs r`: from `q` the calls that did not sleep put `ps` and got `gs`, and left `r`.
pub data Run {ℓ} {A : Type ℓ} (q : Queue A) : List A → List (Option A) → Queue A → Type ℓ where
  start : Run q [] [] q
  put_call :
      {ps : List A} {gs : List (Option A)} {r r' : Queue A} (x : A)
      → Run q ps gs r
      → put r x ≡ some r'
      → Run q (ps ++ (x ∷ [])) gs r'
  get_call :
      {ps : List A} {gs : List (Option A)} {r r' : Queue A} (o : Option A)
      → Run q ps gs r
      → get r ≡ some (o, r')
      → Run q ps (gs ++ (o ∷ [])) r'

module _ {ℓ} {A : Type ℓ} where
  pub Run-IsValid :
      {q r : Queue A} {ps : List A} {gs : List (Option A)} → Run q ps gs r → IsValid q → IsValid r
  Run-IsValid start v = v
  Run-IsValid (put_call {r = r} x run e) v = put-IsValid r x (Run-IsValid run v) e
  Run-IsValid (get_call {r = r} o run e) v = get-IsValid r (Run-IsValid run v) e

  contents-put :
      (q q' : Queue A) (x : A)
      → IsValid q
      → put q x ≡ some q'
      → contents q' ≡ contents q ++ (some x ∷ [])
  contents-put q q' x v e = elim (put_refines q x v) [
    | inl (e', full) ↦ cc
    | inr (r, e', space, c) ↦
        let p : r ≡ q' = cc in subst (λ (z : Queue A). contents z ≡ contents q ++ (some x ∷ [])) p c
  ]

  contents-get :
      (q q' : Queue A) (o : Option A)
      → IsValid q
      → get q ≡ some (o, q')
      → contents q ≡ o ∷ contents q'
  contents-get q q' o v e = elim (get_refines q v) [
    | inl (e', held) ↦ cc
    | inr (o', r, e', c) ↦
        let p : r ≡ q' = cc in
        let p' : o' ≡ o = cc in
        subst₂ (λ (y : Option A) (z : Queue A). contents q ≡ y ∷ contents z) p' p c
  ]

  -- From a well-formed queue, and whatever the interleaving, the pointers come out in the order
  -- in which they went in: what the queue held, followed by what was put, is what was got,
  -- followed by what it still holds.
  pub fifo :
      {q r : Queue A} {ps : List A} {gs : List (Option A)}
      → IsValid q
      → Run q ps gs r
      → contents q ++ map some ps ≡ gs ++ contents r
  fifo {q} v start = append-nil (contents q)
  fifo {q} v (put_call {ps = ps} {gs = gs} {r = r} {r' = r'} x run e) =
      contents q ++ map some (ps ++ (x ∷ []))
      ≡⟨ (simp (map-append, ← append_assoc)) ⟩ (contents q ++ map some ps) ++ (some x ∷ [])
      ≡⟨ ap (λ (l : List (Option A)). l ++ (some x ∷ [])) (fifo v run) ⟩
        (gs ++ contents r) ++ (some x ∷ [])
      ≡⟨ append_assoc gs (contents r) (some x ∷ []) ⟩ gs ++ (contents r ++ (some x ∷ []))
      ≡⟨ ap (λ (l : List (Option A)). gs ++ l) (sym (contents-put r r' x (Run-IsValid run v) e)) ⟩
        gs ++ contents r' ∎
  fifo {q} v (get_call {ps = ps} {gs = gs} {r = r} {r' = r'} o run e) =
      contents q ++ map some ps
      ≡⟨ fifo v run ⟩ gs ++ contents r
      ≡⟨ ap (λ (l : List (Option A)). gs ++ l) (contents-get r r' o (Run-IsValid run v) e) ⟩
        gs ++ (o ∷ contents r')
      ≡⟨ sym (append_assoc gs (o ∷ []) (contents r')) ⟩ (gs ++ (o ∷ [])) ++ contents r' ∎

  -- The queue of a positive size never makes both its users sleep.
  pub progress :
      (q : Queue A) (x : A)
      → IsValid q
      → 2 ≤ q.size
      → ((q' : Queue A) × (put q x ≡ some q'))
        ⊎ ((o : Option A) × (q' : Queue A) × (get q ≡ some (o, q')))
  progress q x v h = elim (put_refines q x v) [
    | inr (q', e, space, c) ↦ inl (q', e)
    | inl (e, full) ↦ elim (get_refines q v) [
      | inr (o, q', e', c) ↦ inr (o, q', e')
      | inl (e', held) ↦ absurd (omega (arith, full, ap length held, length-contents q))
    ]
  ]
