-- ===== src/SeqQueue/Inv.antt =====
-- What a sequence queue holds, and what its functions do to that.
use mathlib.Core.Path.{subst}
use squashfs_tools.Common.{
  ℕ, suc, ◌+◌, ◌≡◌, ◌≢◌, ◌⊎◌, inl, inr, refl, sym, ap, ◌∙◌, ◌↔◌, Bool, true, false, not, none, some,
  List, [], ◌∷◌, ◌++◌, arith, length, if◌then◌else◌, ◌==◌, Bool-cases, All, All-map, Absent, ==_iff,
}
use squashfs_tools.Hash.{Links, calculate_hash}
use squashfs_tools.Hash.Chain.{first, first_split, first-none, first_some}
use squashfs_tools.Hash.Contents.{
  Contents, insert-Contents, remove-Contents, find-Contents, empty-Contents,
}
use squashfs_tools.SeqQueue.{
  SeqQueue, seq_hash, init, put, lookup, take, get, flush, dump, empty_buckets,
}

-- The number of entries that pass a test.
abbrev pub count_if : (ℕ → Bool) → List ℕ → ℕ
count_if test [] = 0
count_if test (x ∷ xs) = (if test x then 1 else 0) + count_if test xs

pub count_if-append :
    (test : ℕ → Bool) (xs ys : List ℕ)
    → count_if test (xs ++ ys) ≡ count_if test xs + count_if test ys
count_if-append test [] ys = omega arith
count_if-append test (x ∷ xs) ys = omega (arith, count_if-append test xs ys)

count_if_both :
    (test : ℕ → Bool) (xs : List ℕ) → count_if test xs + count_if (λ x. not (test x)) xs ≡ length xs
count_if_both test [] = omega arith
count_if_both test (x ∷ xs) = ground (arith, count_if_both test xs)

module _ (sequence : ℕ → ℕ) (fragment : ℕ → Bool) where
  -- The queue holds the entries `es`, the last one put first.
  pub record Holds (q : SeqQueue) (es : List ℕ) : Type 0 where
    pub table : Contents (seq_hash sequence fragment) q.table es
    pub fragments : q.fragment_count ≡ count_if fragment es
    pub blocks : q.block_count ≡ count_if (λ e. not (fragment e)) es

  pub put-Holds :
      (q : SeqQueue) (e : ℕ) (es : List ℕ)
      → Holds q es
      → Absent e es
      → Holds (put sequence fragment q e).0 (e ∷ es)
  unfolding put
  put-Holds q e es h a =
      let t = insert-Contents (seq_hash sequence fragment) q.table e es h.table a in
      elim (Bool-cases (fragment e)) [
        | inl yes_frag ↦
            rw yes_frag (record { table = t; fragments = ground arith; blocks = ground arith })
        | inr no_frag ↦
            rw no_frag (record { table = t; fragments = ground arith; blocks = ground arith })
      ]

  -- The search finds the newest entry with the number that is due.
  pub lookup_lem :
      (q : SeqQueue) (es : List ℕ)
      → Holds q es
      → lookup sequence fragment q ≡ first (λ e. sequence e == q.sequence) es
  unfolding lookup
  lookup_lem q es h =
      find-Contents (seq_hash sequence fragment) q.table es (λ e. sequence e == q.sequence)
        (calculate_hash q.sequence) (suc (q.fragment_count + q.block_count)) h.table
        (λ x t. ap calculate_hash ((==_iff (sequence x) q.sequence).0 t))
        (omega (arith, h.fragments, h.blocks, count_if_both fragment es))

  pub take-Holds :
      (q : SeqQueue) (e : ℕ) (fs bs : List ℕ)
      → Holds q (fs ++ (e ∷ bs))
      → Holds (take sequence fragment q e) (fs ++ bs)
  unfolding take
  take-Holds q e fs bs h =
      let t = remove-Contents (seq_hash sequence fragment) q.table e fs bs h.table in
      let other : ℕ → Bool = λ x. not (fragment x) in
      elim (Bool-cases (fragment e)) [
        | inl yes_frag ↦ rw yes_frag (record {
          table = t;
          fragments =
              ground (arith, count_if-append fragment fs (e ∷ bs), count_if-append fragment fs bs);
          blocks = ground (arith, count_if-append other fs (e ∷ bs), count_if-append other fs bs);
        })
        | inr no_frag ↦ rw no_frag (record {
          table = t;
          fragments =
              ground (arith, count_if-append fragment fs (e ∷ bs), count_if-append fragment fs bs);
          blocks = ground (arith, count_if-append other fs (e ∷ bs), count_if-append other fs bs);
        })
      ]

  get-none : (q : SeqQueue) → lookup sequence fragment q ≡ none → get sequence fragment q ≡ none
  unfolding get
  get-none q h = rw (h, get)

  get-some :
      (q : SeqQueue) (e : ℕ)
      → lookup sequence fragment q ≡ some e
      → get sequence fragment q ≡ some (e, take sequence fragment q e)
  unfolding get
  get-some q e h = rw (h, get)

  sequence-take : (q : SeqQueue) (e : ℕ) → (take sequence fragment q e).sequence ≡ q.sequence + 1
  unfolding take
  sequence-take q e = ground arith

  -- On a sequence queue that holds `es`, seq_queue_get sleeps exactly when no entry with the
  -- number that is due is held; else it takes one such entry out, the others stay, and the next
  -- number is due.
  pub get_due_cases :
      (q : SeqQueue) (es : List ℕ)
      → Holds q es
      → ((get sequence fragment q ≡ none) × All (λ e. sequence e ≢ q.sequence) es)
        ⊎ ((e : ℕ) × (q' : SeqQueue) × (fs : List ℕ) × (bs : List ℕ) × (get sequence fragment q
              ≡ some (e, q'))
            × (sequence e ≡ q.sequence)
            × (q'.sequence ≡ q.sequence + 1)
            × (es ≡ fs ++ (e ∷ bs))
            × Holds q' (fs ++ bs))
  get_due_cases q es h = elim (first_split (λ e. sequence e == q.sequence) es) [
    | inl missing ↦ inl (
      get-none q (lookup_lem q es h ∙ missing),
      All-map (λ e. (sequence e == q.sequence) ≡ false) (λ e. sequence e ≢ q.sequence) es
          (λ x no_test p. ground arith) (first-none (λ e. sequence e == q.sequence) es missing),
    )
    | inr (e, fs, bs, found, due, split) ↦ inr (
      e,
      take sequence fragment q e,
      fs,
      bs,
      get-some q e (lookup_lem q es h ∙ found),
      (==_iff (sequence e) q.sequence).0 due,
      sequence-take q e,
      split,
      take-Holds q e fs bs (subst (λ l. Holds q l) split h),
    )
  ]

  -- What a successful seq_queue_get says, whichever way the entries are split.
  get_inv :
      (q : SeqQueue) (e : ℕ) {q' : SeqQueue}
      → get sequence fragment q ≡ some (e, q')
      → take sequence fragment q e ≡ q'
  unfolding get
  get_inv q e h = ground arith

  pub get-Holds :
      (q : SeqQueue) (e : ℕ) (fs bs : List ℕ) {q' : SeqQueue}
      → Holds q (fs ++ (e ∷ bs))
      → get sequence fragment q ≡ some (e, q')
      → Holds q' (fs ++ bs) × (sequence e ≡ q.sequence) × (q'.sequence ≡ q.sequence + 1)
  get-Holds q e fs bs {q'} h g = elim (get_due_cases q (fs ++ (e ∷ bs)) h) [
    | inl (g', absent) ↦ cc
    | inr (e', r, fs', bs', g', due, n, split, h') ↦ (
      subst (λ r. Holds r (fs ++ bs)) (get_inv q e g) (take-Holds q e fs bs h),
      cc,
      let p : r ≡ q' = cc in subst (λ (x : SeqQueue). x.sequence ≡ q.sequence + 1) p n,
    )
  ]

  -- seq_queue_init and seq_queue_flush leave an empty queue.
  pub init-Holds : (links : Links) → Holds (init links) []
  unfolding init
  init-Holds links = record {
    table =
        empty-Contents (seq_hash sequence fragment) (record links { bucket = empty_buckets })
          (λ b. refl);
    fragments = refl;
    blocks = refl;
  }

  pub flush-Holds : (q : SeqQueue) → Holds (flush q) []
  unfolding flush
  flush-Holds q = record {
    table =
        empty-Contents (seq_hash sequence fragment) (record (q.table) { bucket = empty_buckets })
          (λ b. refl);
    fragments = refl;
    blocks = refl;
  }

  pub sequence-put : (q : SeqQueue) (e : ℕ) → (put sequence fragment q e).0.sequence ≡ q.sequence
  unfolding put
  sequence-put q e = ground arith

  signal-put : (q : SeqQueue) (e : ℕ) → (put sequence fragment q e).1 ≡ (sequence e == q.sequence)
  unfolding put
  signal-put q e = refl

  get-none_inv : (q : SeqQueue) → get sequence fragment q ≡ none → lookup sequence fragment q ≡ none
  unfolding get
  get-none_inv q h = ground arith

  -- On a sequence queue where the consumer would sleep, seq_queue_put of an entry that is not
  -- held signals exactly if the consumer can go on.
  pub put_signals :
      (q : SeqQueue) (e : ℕ) (es : List ℕ)
      → Holds q es
      → Absent e es
      → get sequence fragment q ≡ none
      → ((put sequence fragment q e).1 ≡ true)
        ↔ (get sequence fragment (put sequence fragment q e).0 ≢ none)
  put_signals q e es h a asleep = (to, from)
    where
      q' : SeqQueue
      q' = (put sequence fragment q e).0

      found : lookup sequence fragment q' ≡ first (λ x. sequence x == q.sequence) (e ∷ es)
      found =
          lookup_lem q' (e ∷ es) (put-Holds q e es h a)
          ∙ ap (λ s. first (λ x. sequence x == s) (e ∷ es)) (sequence-put q e)

      missing : first (λ x. sequence x == q.sequence) es ≡ none
      missing = sym (lookup_lem q es h) ∙ get-none_inv q asleep

      to : (put sequence fragment q e).1 ≡ true → get sequence fragment q' ≢ none
      to t g =
          first_some (λ x. sequence x == q.sequence) [] e es (sym (signal-put q e) ∙ t)
            (sym found ∙ get-none_inv q' g)

      from : get sequence fragment q' ≢ none → (put sequence fragment q e).1 ≡ true
      from g = elim (Bool-cases (sequence e == q.sequence)) [
        | inl due ↦ signal-put q e ∙ due
        | inr not_due ↦
            absurd (g (get-none q' (found ∙ unfold first in rw (not_due, first) missing)))
      ]

  -- dump_seq_queue prints how many fragments or blocks are held.
  pub dump_counts :
      (q : SeqQueue) (es : List ℕ) (fragments : Bool)
      → Holds q es
      → ((dump q fragments).0
          ≡ count_if (λ e. if fragments then fragment e else not (fragment e)) es)
        × (((dump q fragments).1 ≡ true) ↔ ((dump q fragments).0 ≡ 0))
  unfolding dump
  dump_counts q es true h = (h.fragments, ==_iff q.fragment_count 0)
  dump_counts q es false h = (h.blocks, ==_iff q.block_count 0)
