-- ===== src/Cache/Tests.antt =====
-- The cache on concrete inputs.
use squashfs_tools.Common.{
  ℕ, ◌+◌, ◌-◌, ◌<◌, ◌≡◌, ◌≢◌, ◌⊎◌, inl, refl, true, false, none, some, List, [], ◌∷◌, ◌++◌, arith,
  All, Absent, In,
}
use squashfs_tools.Common.Int.{pos, negsuc}
use squashfs_tools.Hash
use squashfs_tools.FreeList
use squashfs_tools.FreeList.Ring
use squashfs_tools.FreeList.Remove
use squashfs_tools.Cache.{
  Cache, init, get, get_entry, lookup, block_put, pick, alloc, start_entry, hash_entry,
}
use squashfs_tools.Cache.Inv.{IsValid, init-IsValid}
use squashfs_tools.Cache.Lookup.{lookup_cases}
use squashfs_tools.Cache.Get.{get_cases, IsGot, started-IsValid}
use squashfs_tools.Cache.Pick.{alloc-IsPicked}
use squashfs_tools.Hash.Contents.{Contents, insert-Contents, remove-Contents, empty-Contents}
use squashfs_tools.Cache.Put.{block_put_cases}

abbrev blank : Cache
blank = record {
  max_buffers = 0;
  count = 0;
  buffer_size = 0;
  noshrink_lookup = false;
  first_freelist = false;
  used = 0;
  free = record { next = λ e. none; prev = λ e. none; head = none };
  table = record { next = λ e. none; prev = λ e. none; bucket = λ b. none };
  fresh = 1;
  owned = λ e. false;
  index = λ e. pos 0;
  uses = λ e. 0;
  locked = λ e. false;
  wait_on_unlock = λ e. false;
  error = λ e. false;
}

-- One buffer at most, reused before the cache grows.
abbrev empty_cache : Cache
empty_cache = init blank 131072 1 true true

empty-IsValid : IsValid empty_cache [] [] []
empty-IsValid = init-IsValid blank 131072 1 true

get_cases_example :
    ((get empty_cache (negsuc 4) ≡ none)
      × (◌≡◌ {A = List ℕ} [] [])
      × (empty_cache.count ≡ empty_cache.max_buffers))
    ⊎ ((e : ℕ) × (c' : Cache) × (get empty_cache (negsuc 4) ≡ some (e, c'))
        × IsGot empty_cache [] [] (negsuc 4) false e c')
get_cases_example = get_cases empty_cache [] [] [] (negsuc 4) empty-IsValid

abbrev one_buffer : Cache
one_buffer = hash_entry (start_entry (record (alloc empty_cache) { used = 1 }) 1 false) 1 (negsuc 4)

got_one : get empty_cache (negsuc 4) ≡ some (1, one_buffer)
unfolding init get_entry pick alloc start_entry hash_entry
got_one = refl

-- Memory with one buffer in use under -5.
one-IsValid : IsValid one_buffer [] (1 ∷ []) []
unfolding init alloc
one-IsValid =
    started-IsValid (record (alloc empty_cache) { used = 1 }) 1 false (negsuc 4) [] [] []
      (alloc-IsPicked empty_cache [] [] [] empty-IsValid (omega arith))

one_use : one_buffer.uses 1 ≡ 1
unfolding hash_entry start_entry alloc init
one_use = refl

lookup_cases_example :
    ((lookup one_buffer (negsuc 4) ≡ (none, one_buffer))
      × All (λ e. one_buffer.index e ≢ negsuc 4) (1 ∷ []))
    ⊎ ((e : ℕ) × (free' : List ℕ) × ((lookup one_buffer (negsuc 4)).0 ≡ some e)
        × (one_buffer.index e ≡ negsuc 4)
        × In e (1 ∷ [])
        × IsValid (lookup one_buffer (negsuc 4)).1 free' (1 ∷ []) []
        × Absent e free'
        × ((lookup one_buffer (negsuc 4)).1.uses e ≡ one_buffer.uses e + 1))
lookup_cases_example =
    lookup_cases one_buffer [] (1 ∷ []) [] (negsuc 4) one-IsValid (omega (arith, one_use), tt)

block_put_cases_example :
    ((one_buffer.uses 1 ≡ 1)
      × ((block_put one_buffer (some 1)).1 ≡ true)
      × IsValid (block_put one_buffer (some 1)).0 (1 ∷ []) (1 ∷ []) [])
    ⊎ ((1 < one_buffer.uses 1)
        × ((block_put one_buffer (some 1)).1 ≡ false)
        × IsValid (block_put one_buffer (some 1)).0 [] (1 ∷ []) []
        × ((block_put one_buffer (some 1)).0.uses 1 ≡ one_buffer.uses 1 - 1))
block_put_cases_example =
    block_put_cases one_buffer [] (1 ∷ []) [] one-IsValid 1 (inl refl) (omega (arith, one_use))
      (omega (arith, one_use))

abbrev locked_buffer : Cache
locked_buffer = record one_buffer { locked = λ e. true }

-- The free list 3, 7 in memory.
abbrev two_free : FreeList.Links
two_free = FreeList.insert (FreeList.insert blank.free 3) 7

two-Represents : Ring.Represents two_free (3 ∷ 7 ∷ [])
unfolding FreeList.insert
two-Represents = (refl, ((refl, refl), (refl, refl)), (((λ q. omega (arith, q)), tt), (tt, tt)))

remove-Represents_example : Ring.Represents (FreeList.remove two_free 3) ([] ++ (7 ∷ []))
remove-Represents_example = Remove.remove-Represents two_free 3 [] (7 ∷ []) two-Represents

-- A hash table of the entries 1 and 65537, which fall into one bucket.
abbrev id_hash : ℕ → ℕ
id_hash e = Hash.calculate_hash e

abbrev one_hashed : Hash.Links
one_hashed = Hash.insert id_hash blank.table 1

one-Contents : Contents id_hash one_hashed (1 ∷ [])
one-Contents =
    insert-Contents id_hash blank.table 1 [] (empty-Contents id_hash blank.table (λ b. refl)) tt

two-Contents : Contents id_hash (Hash.insert id_hash one_hashed 65537) (65537 ∷ 1 ∷ [])
two-Contents = insert-Contents id_hash one_hashed 65537 (1 ∷ []) one-Contents (omega arith, tt)

remove-Contents_example :
    Contents id_hash
      (Hash.remove id_hash (Hash.insert id_hash one_hashed 65537) 1)
      ((65537 ∷ []) ++ [])
remove-Contents_example =
    remove-Contents id_hash (Hash.insert id_hash one_hashed 65537) 1 (65537 ∷ []) [] two-Contents
