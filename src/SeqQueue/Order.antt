-- ===== src/SeqQueue/Order.antt =====
-- The order in which the entries come out of a sequence queue.
use mathlib.Core.List.{map-append}
use mathlib.Core.Path.{subst, ap₂, ◌≡⟨◌⟩◌, ◌∎}
use squashfs_tools.Common.{
  ℕ, zero, suc, ◌+◌, ◌≡◌, refl, sym, ap, ◌∙◌, Bool, some, List, [], ◌∷◌, ◌++◌, map, arith, length,
  length-append, Absent,
}
use squashfs_tools.SeqQueue.{SeqQueue, put, get}
use squashfs_tools.SeqQueue.Inv.{Holds, put-Holds, get-Holds, sequence-put}

-- s, s + 1, … , `n` of them.
abbrev pub count_up : ℕ → ℕ → List ℕ
count_up s zero = []
count_up s (suc n) = s ∷ count_up (suc s) n

count_up_snoc : (s n : ℕ) → count_up s (suc n) ≡ count_up s n ++ ((s + n) ∷ [])
count_up_snoc s zero = let e : s ≡ s + 0 = omega arith in ap (λ k. k ∷ []) e
count_up_snoc s (suc n) =
    let e : suc s + n ≡ s + suc n = omega arith in
    ap (λ l. s ∷ l) (rw (← e) (count_up_snoc (suc s) n))

module _ (sequence : ℕ → ℕ) (fragment : ℕ → Bool) where
  -- `Run q es ps gs r rs`: from `q`, which holds `es`, the calls put `ps` and got `gs`, and left `r`,
  -- which holds `rs`. No entry is put while it is held.
  pub data Run (q : SeqQueue) (es : List ℕ) : List ℕ → List ℕ → SeqQueue → List ℕ → Type 0 where
    start : Run q es [] [] q es
    put_call :
        {ps gs rs : List ℕ} {r : SeqQueue} (e : ℕ)
        → Run q es ps gs r rs
        → Absent e rs
        → Run q es (ps ++ (e ∷ [])) gs (put sequence fragment r e).0 (e ∷ rs)
    get_call :
        {ps gs rs : List ℕ} {r r' : SeqQueue} (e : ℕ) (fs bs : List ℕ)
        → Run q es ps gs r rs
        → get sequence fragment r ≡ some (e, r')
        → rs ≡ fs ++ (e ∷ bs)
        → Run q es ps (gs ++ (e ∷ [])) r' (fs ++ bs)

  pub Run-Holds :
      {q : SeqQueue} {es : List ℕ} {r : SeqQueue} {ps gs rs : List ℕ}
      → Run q es ps gs r rs
      → Holds sequence fragment q es
      → Holds sequence fragment r rs
  Run-Holds start h = h
  Run-Holds (put_call {rs = rs} {r = r} e run a) h =
      put-Holds sequence fragment r e rs (Run-Holds run h) a
  Run-Holds (get_call {rs = rs} {r = r} {r' = r'} e fs bs run g split) h =
      (get-Holds sequence fragment r e fs bs
        (subst (λ l. Holds sequence fragment r l) split (Run-Holds run h)) g).0

  -- From a well-formed sequence queue that holds `es`, and whatever the order in which entries
  -- are put and got, the entries come out numbered s, s + 1, and so on from the number s that
  -- was due.
  pub in_sequence :
      {q : SeqQueue} {es : List ℕ} {r : SeqQueue} {ps gs rs : List ℕ}
      → Holds sequence fragment q es
      → Run q es ps gs r rs
      → (map sequence gs ≡ count_up q.sequence (length gs)) × (r.sequence ≡ q.sequence + length gs)
  in_sequence h start = (refl, omega arith)
  in_sequence {q} {es} h (put_call {gs = gs} {r = r} e run a) =
      let (m, n) = in_sequence h run in (m, sequence-put sequence fragment r e ∙ n)
  in_sequence {q} {es} h (get_call {gs = gs} {rs = rs} {r = r} {r' = r'} e fs bs run g split) =
      let (m, n) = in_sequence h run in
      let (h', due, next) =
        get-Holds sequence fragment r e fs bs
          (subst (λ l. Holds sequence fragment r l) split (Run-Holds run h)) g in
      let k : length (gs ++ (e ∷ [])) ≡ suc (length gs) =
        omega (arith, length-append gs (e ∷ [])) in
      (
        map sequence (gs ++ (e ∷ []))
            ≡⟨ map-append sequence gs (e ∷ []) ⟩ map sequence gs ++ (sequence e ∷ [])
            ≡⟨ ap₂ (λ (l : List ℕ) (x : ℕ). l ++ (x ∷ [])) m (due ∙ n) ⟩
              count_up q.sequence (length gs) ++ ((q.sequence + length gs) ∷ [])
            ≡⟨ sym (count_up_snoc q.sequence (length gs)) ⟩ count_up q.sequence (suc (length gs))
            ≡⟨ ap (count_up q.sequence) (sym k) ⟩ count_up q.sequence (length (gs ++ (e ∷ []))) ∎,
        omega (arith, next, n, k),
      )
