-- ===== src/Queue/Tests.antt =====
-- The queue on concrete inputs: runs, and the theorems at inputs that meet their hypotheses.
use squashfs_tools.Common.{
  ℕ, ◌+◌, ◌*◌, ◌<◌, ◌≡◌, ◌⊎◌, inl, inr, refl, Option, none, some, [], ◌∷◌, ◌++◌, map, arith,
}
use squashfs_tools.Queue.{Queue, int_max, pointer_size, init, put, get}
use squashfs_tools.Queue.Inv.{IsValid, init_cases}
use squashfs_tools.Queue.Refine.{contents, count, put_refines, get_refines}
use squashfs_tools.Queue.Trace.{Run, start, put_call, get_call, fifo}
use squashfs_tools.Queue.Monitor.{
  Monitor, IsLive, here, after, put_begins, get_begins, put_pass, get_pass, Reach-IsLive,
}

-- Two pointers fit; the ring has gone round.
abbrev wrapped : Queue ℕ
wrapped = record { size = 3; readp = 2; writep = 0; slots = some 7 ∷ some 8 ∷ some 9 ∷ [] }

abbrev filled : Queue ℕ
filled = record { size = 3; readp = 2; writep = 1; slots = some 5 ∷ some 8 ∷ some 9 ∷ [] }

init_limits :
    (init {A = ℕ} 268_435_455 ≡ none)
    × (init {A = ℕ} 2
        ≡ some (record { size = 3; readp = 0; writep = 0; slots = none ∷ none ∷ none ∷ [] }))
unfolding init
init_limits = (refl, refl)

init_cases_example :
    (init {A = ℕ} 2 ≡ none) × (int_max < (2 + 1) * pointer_size)
    ⊎ ((q : Queue ℕ) × (init 2 ≡ some q) × IsValid q × (q.size ≡ 2 + 1) × (q.readp ≡ q.writep))
init_cases_example = init_cases {A = ℕ} 2

put_runs : (put wrapped 5 ≡ some filled) × (put filled 6 ≡ none)
unfolding put
put_runs = (refl, refl)

wrapped-IsValid : IsValid wrapped
wrapped-IsValid = omega arith

filled-IsValid : IsValid filled
filled-IsValid = omega arith

put_refines_example :
    ((put wrapped 5 ≡ none) × (count wrapped + 1 ≡ 3))
    ⊎ ((q' : Queue ℕ) × (put wrapped 5 ≡ some q')
        × (count wrapped + 1 < 3)
        × (contents q' ≡ contents wrapped ++ (some 5 ∷ [])))
put_refines_example = put_refines wrapped 5 wrapped-IsValid

get_refines_example :
    ((get filled ≡ none) × (contents filled ≡ []))
    ⊎ ((o : Option ℕ) × (q' : Queue ℕ) × (get filled ≡ some (o, q'))
        × (contents filled ≡ o ∷ contents q'))
get_refines_example = get_refines filled filled-IsValid

-- A put, then a get of what was there before.
a-Run : Run wrapped (5 ∷ []) (some 9 ∷ []) (record filled { readp = 0 })
unfolding put get
a-Run = get_call (some 9) (put_call {r' = filled} 5 start refl) refl

fifo_example :
    contents wrapped ++ map some (5 ∷ []) ≡ (some 9 ∷ []) ++ contents (record filled { readp = 0 })
fifo_example = fifo wrapped-IsValid a-Run

-- A producer sleeps on the full queue.
abbrev crowded : Monitor ℕ
crowded = record {
  queue = filled;
  full = record { sleeping = 1; woken = 0 };
  empty = record { sleeping = 0; woken = 0 };
}

crowded-IsLive : IsLive crowded
unfolding count
crowded-IsLive = record {
  valid = filled-IsValid;
  consumers = inl refl;
  producers = inr (omega arith);
}

Reach-IsLive_example : IsLive (get_pass (put_pass crowded 3))
Reach-IsLive_example = Reach-IsLive crowded-IsLive (after (after here (put_begins 3)) get_begins)
