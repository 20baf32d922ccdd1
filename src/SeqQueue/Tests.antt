-- ===== src/SeqQueue/Tests.antt =====
-- The sequence queue on concrete inputs.
use squashfs_tools.Common.{
  ℕ, ◌+◌, ◌%◌, ◌/◌, ◌≡◌, ◌≢◌, ◌⊎◌, ◌↔◌, refl, Bool, true, none, some, List, [], ◌∷◌, ◌++◌, map,
  arith, ◌==◌, All,
}
use squashfs_tools.Hash.{Links, calculate_hash, insert, remove, find}
use squashfs_tools.SeqQueue.{SeqQueue, init, put, get, take, lookup, flush, dump}
use squashfs_tools.SeqQueue.Inv.{Holds, init-Holds, put-Holds, get_due_cases, put_signals}
use squashfs_tools.SeqQueue.Order.{Run, start, put_call, get_call, in_sequence, count_up}
use squashfs_tools.SeqQueue.Accounts.{
  Calls, none_yet, then_put, then_get, IsBalanced, all_accounted,
}

-- The buffer at address `a` has the sequence number `a % 10`; those from 20 on are fragments.
abbrev number : ℕ → ℕ
number a = a % 10

abbrev is_fragment : ℕ → Bool
is_fragment a = a / 10 == 2

abbrev no_links : Links
no_links = record { next = λ e. none; prev = λ e. none; bucket = λ b. none }

abbrev first_state : SeqQueue
first_state = init no_links

abbrev with_second : SeqQueue
with_second = (put number is_fragment first_state 11).0

abbrev with_both : SeqQueue
with_both = (put number is_fragment with_second 20).0

abbrev one_left : SeqQueue
one_left = take number is_fragment with_both 20

abbrev none_left : SeqQueue
none_left = take number is_fragment one_left 11

-- The second in sequence comes first; the consumer gets the first one first.
a-Run : Run number is_fragment first_state [] (11 ∷ 20 ∷ []) (20 ∷ 11 ∷ []) none_left []
unfolding init put get take lookup find insert remove calculate_hash
a-Run =
    get_call 11 [] []
      (get_call 20 [] (11 ∷ []) (put_call 20 (put_call 11 start tt) ((λ q. omega (arith, q)), tt))
        refl refl)
      refl refl

in_sequence_example :
    (map number (20 ∷ 11 ∷ []) ≡ count_up first_state.sequence 2)
    × (none_left.sequence ≡ first_state.sequence + 2)
in_sequence_example = in_sequence number is_fragment (init-Holds number is_fragment no_links) a-Run

a-Calls : Calls number is_fragment first_state [] (11 ∷ 20 ∷ []) (20 ∷ 11 ∷ []) none_left
unfolding init put get take lookup insert remove find calculate_hash
a-Calls = then_get 11 (then_get 20 (then_put 20 (then_put 11 none_yet refl) refl) refl) refl

all_accounted_example : IsBalanced number is_fragment [] (11 ∷ 20 ∷ []) (20 ∷ 11 ∷ []) none_left
all_accounted_example =
    all_accounted number is_fragment (init-Holds number is_fragment no_links) a-Calls

second-Holds : Holds number is_fragment with_second (11 ∷ [])
second-Holds =
    put-Holds number is_fragment first_state 11 [] (init-Holds number is_fragment no_links) tt

asleep : get number is_fragment with_second ≡ none
unfolding init put get lookup find insert calculate_hash
asleep = refl

get_due_cases_example :
    ((get number is_fragment with_second ≡ none)
      × All (λ e. number e ≢ with_second.sequence) (11 ∷ []))
    ⊎ ((e : ℕ) × (q' : SeqQueue) × (fs : List ℕ) × (bs : List ℕ) × (get number is_fragment
            with_second
          ≡ some (e, q'))
        × (number e ≡ with_second.sequence)
        × (q'.sequence ≡ with_second.sequence + 1)
        × (11 ∷ [] ≡ fs ++ (e ∷ bs))
        × Holds number is_fragment q' (fs ++ bs))
get_due_cases_example = get_due_cases number is_fragment with_second (11 ∷ []) second-Holds

put_signals_example :
    ((put number is_fragment with_second 20).1 ≡ true) ↔ (get number is_fragment with_both ≢ none)
put_signals_example =
    put_signals number is_fragment with_second 20 (11 ∷ []) second-Holds
      ((λ q. omega (arith, q)), tt) asleep

flush_runs : dump (flush with_both) true ≡ (0, true)
unfolding flush dump
flush_runs = refl
