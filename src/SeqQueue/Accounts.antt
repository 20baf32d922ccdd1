-- ===== src/SeqQueue/Accounts.antt =====
-- What goes into a sequence queue comes out of it: calls of seq_queue_put and seq_queue_get of
-- squashfs-tools/caches-queues-lists.c in any order.
use mathlib.Core.Path.{subst}
use squashfs_tools.Common.{
  ℕ, ◌+◌, ◌≡◌, inl, inr, sym, ap, ◌∙◌, Bool, some, List, [], ◌∷◌, ◌++◌, arith, ◌==◌, Absent,
  if◌then◌else◌, Bool-cases,
}
use squashfs_tools.SeqQueue.{SeqQueue, put, get}
use squashfs_tools.SeqQueue.Inv.{Holds, put-Holds, get_due_cases}

-- How often `e` stands in a list.
abbrev pub times : ℕ → List ℕ → ℕ
times e [] = 0
times e (x ∷ xs) = if e == x then 1 + times e xs else times e xs

times-append : (e : ℕ) (xs ys : List ℕ) → times e (xs ++ ys) ≡ times e xs + times e ys
times-append e [] ys = omega arith
times-append e (x ∷ xs) ys = elim (Bool-cases (e == x)) [
  | inl same ↦ rw same (omega (arith, times-append e xs ys))
  | inr other ↦ rw other (times-append e xs ys)
]

times-Absent : (e : ℕ) (xs : List ℕ) → times e xs ≡ 0 → Absent e xs
times-Absent e [] h = tt
times-Absent e (x ∷ xs) h = elim (Bool-cases (e == x)) [
  | inl same ↦ absurd (ground (arith, h, same))
  | inr other ↦ ((λ q. ground (arith, q, other)), times-Absent e xs (ground (arith, h, other)))
]

-- An entry that is taken out of a list, and put behind another.
times-moved :
    (d e : ℕ) (gs fs bs : List ℕ)
    → times d (gs ++ (e ∷ [])) + times d (fs ++ bs) ≡ times d gs + times d (fs ++ (e ∷ bs))
times-moved d e gs fs bs =
    let a = times-append d gs (e ∷ []) in
    let b = times-append d fs bs in
    let c = times-append d fs (e ∷ bs) in
    elim (Bool-cases (d == e)) [
      | inl same ↦ ground (arith, a, b, c, same)
      | inr other ↦ ground (arith, a, b, c, other)
    ]

times-put :
    (d e : ℕ) (es ps : List ℕ)
    → times d es + times d (ps ++ (e ∷ [])) ≡ times d (e ∷ []) + (times d es + times d ps)
times-put d e es ps = omega (arith, times-append d ps (e ∷ []))

times-cons : (d e : ℕ) (xs : List ℕ) → times d (e ∷ xs) ≡ times d (e ∷ []) + times d xs
times-cons d e xs = elim (Bool-cases (d == e)) [
  | inl same ↦ rw same (omega arith)
  | inr other ↦ rw other (omega arith)
]

module _ (sequence : ℕ → ℕ) (fragment : ℕ → Bool) where
  -- `Calls q es ps gs r`: from `q`, which holds `es`, the calls put `ps` and got `gs`, and left `r`. An
  -- entry is put when it has come out as often as it went in.
  pub data Calls (q : SeqQueue) (es : List ℕ) : List ℕ → List ℕ → SeqQueue → Type 0 where
    none_yet : Calls q es [] [] q
    then_put :
        {ps gs : List ℕ} {r : SeqQueue} (e : ℕ)
        → Calls q es ps gs r
        → times e gs ≡ times e es + times e ps
        → Calls q es (ps ++ (e ∷ [])) gs (put sequence fragment r e).0
    then_get :
        {ps gs : List ℕ} {r r' : SeqQueue} (e : ℕ)
        → Calls q es ps gs r
        → get sequence fragment r ≡ some (e, r')
        → Calls q es ps (gs ++ (e ∷ [])) r'

  -- What a queue holds, where what came out and what is held are what was held and put.
  pub IsBalanced : List ℕ → List ℕ → List ℕ → SeqQueue → Type 0
  IsBalanced es ps gs r =
      (rs : List ℕ) × Holds sequence fragment r rs
      × ((d : ℕ) → times d gs + times d rs ≡ times d es + times d ps)

  -- From a well-formed sequence queue, and whatever the order in which entries are put and got:
  -- the queue stays well formed, and each entry is among those got and those now held exactly
  -- as often as among those held at first and those put, where an entry is put again only when
  -- it came out.
  pub all_accounted :
      {q : SeqQueue} {es ps gs : List ℕ} {r : SeqQueue}
      → Holds sequence fragment q es
      → Calls q es ps gs r
      → IsBalanced es ps gs r
  unfolding IsBalanced
  all_accounted {es = es} h none_yet = (es, h, λ d. omega arith)
  all_accounted {es = es} h (then_put {ps = ps} {gs = gs} {r = r} e calls out) =
      let (rs, h', n) = all_accounted h calls in
      let new = times-Absent e rs (omega (arith, n e, out)) in
      (
        e ∷ rs,
        put-Holds sequence fragment r e rs h' new,
        λ d. omega (arith, n d, times-put d e es ps, times-cons d e rs),
      )
  all_accounted {es = es} h (then_get {ps = ps} {gs = gs} {r = r} {r' = r'} e calls g) =
      let (rs, h', n) = all_accounted h calls in
      elim (get_due_cases sequence fragment r rs h') [
        | inl (asleep, absent) ↦ cc
        | inr (e', x, fs, bs, g', due, next, split, left) ↦
            let same : e' ≡ e = cc in
            let left_in : x ≡ r' = cc in
            let moved : (d : ℕ)
                → times d (gs ++ (e ∷ [])) + times d (fs ++ bs) ≡ times d gs + times d rs =
              λ d.
                subst (λ i. times d (gs ++ (i ∷ [])) + times d (fs ++ bs) ≡ times d gs + times d rs)
                  same (times-moved d e' gs fs bs ∙ ap (λ l. times d gs + times d l) (sym split)) in
            (
              fs ++ bs,
              subst (λ s. Holds sequence fragment s (fs ++ bs)) left_in left,
              λ d. moved d ∙ n d,
            )
      ]
