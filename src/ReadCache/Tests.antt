-- ===== src/ReadCache/Tests.antt =====
-- A cache of two buffers.
use squashfs_tools.Common.{◌-◌, ◌<◌, ◌≡◌, ◌⊎◌, inl, refl, true, false, none, [], ◌∷◌, arith, update}
use squashfs_tools.ReadCache.{
  ReadCache, init, alloc, start, find_block, get, block_put, block_ready, block_wait,
}
use squashfs_tools.ReadCache.Inv.{IsValid, init-IsValid}
use squashfs_tools.ReadCache.Choose.{alloc-IsChosen}
use squashfs_tools.ReadCache.Get.{Answer, start-IsValid, get_lem}
use squashfs_tools.ReadCache.Put.{put_answer, block_ready-block_wait}

abbrev memory : ReadCache
memory = record {
  max_buffers = 0;
  count = 0;
  used = 0;
  buffer_size = 0;
  wait_free = false;
  wait_pending = false;
  free = record { next = λ e. none; prev = λ e. none; head = none };
  table = record { next = λ e. none; prev = λ e. none; bucket = λ b. none };
  fresh = 0;
  block = λ e. 0;
  size = λ e. 0;
  uses = λ e. 0;
  error = λ e. false;
  pending = λ e. false;
}

abbrev empty : ReadCache
empty = init memory 4096 2

empty-IsValid : IsValid empty [] []
empty-IsValid = init-IsValid memory 4096 2

get_lem_example : Answer empty [] [] 96 (get empty 96 512)
get_lem_example = get_lem empty [] [] 96 512 empty-IsValid

-- The buffer 0 holds the block at 96, for one user.
abbrev one : ReadCache
one = start (alloc empty) 0 96 512

one-IsValid : IsValid one [] (0 ∷ [])
unfolding init
one-IsValid =
    start-IsValid (alloc empty) [] [] 0 96 512
      (alloc-IsChosen empty [] [] empty-IsValid (omega arith)) tt

put_answer_example :
    (find_block (block_put one 0).0 96 ≡ find_block one 96)
    × (((one.uses 0 ≡ 1)
          × ((block_put one 0).0.uses ≡ update one.uses 0 0)
          × ((block_put one 0).1 ≡ one.wait_free)
          × ((block_put one 0).0.wait_free ≡ false)
          × IsValid (block_put one 0).0 (0 ∷ []) (0 ∷ []))
        ⊎ ((1 < one.uses 0)
            × (block_put one 0 ≡ (record one { uses = update one.uses 0 (one.uses 0 - 1) }, false))
            × IsValid (block_put one 0).0 [] (0 ∷ [])))
unfolding start
put_answer_example = put_answer one [] (0 ∷ []) 0 96 one-IsValid (inl refl) (omega arith)

block_ready-block_wait_example :
    ((block_wait one 0).1 ≡ true)
    × ((block_ready (block_wait one 0).0 0 true).1 ≡ true)
    × (block_wait (block_ready (block_wait one 0).0 0 true).0 0
        ≡ ((block_ready (block_wait one 0).0 0 true).0, false))
    × ((block_ready (block_wait one 0).0 0 true).0.error 0 ≡ true)
unfolding start
block_ready-block_wait_example = block_ready-block_wait one 0 true refl
