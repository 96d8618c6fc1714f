-- ===== src/Cache/Tests.antt =====
-- A cache of two buffers: a block is got, found again by a second thread, unlocked and given back.
use external_squashfs_tools.Common.{ℕ, ◌^◌, ◌<◌, ◌≡◌, ◌⊎◌, true, false, none, some, [], arith, ◌==◌}
use external_squashfs_tools.Cache.{
  Cache, StaleLinks, cache_init, take_up, cache_alloc, find_from, find_buffer, put_index, waits,
  got, cache_get_any, cache_lookup, cache_unlock, cache_block_put, find_index, cache_hash_of,
}
use external_squashfs_tools.Cache.Valid.{occurrences, IsValid, cache_init-IsValid}
use external_squashfs_tools.Cache.Lookup.{LooksUp, cache_lookup-LooksUp}
use external_squashfs_tools.Cache.Get.{Handed, cache_get_any-Handed}
use external_squashfs_tools.Cache.Turns.{
  after_get, Countable, Turns, no_turn, turn, was_got, looked_up, unlocked, put_back,
  cache_init-Turns,
}

abbrev new_cache : Cache
new_cache = cache_init (2 ^ 17) 2 true true

-- Removing a buffer that is in no chain empties the table.
abbrev no_links : StaleLinks
no_links a c h = []

abbrev with_block : Cache
with_block = after_get new_cache (cache_get_any no_links 65637 true new_cache)

abbrev found_again : Cache
found_again = (cache_lookup 65637 with_block).1

abbrev without_lock : Cache
without_lock = cache_unlock 0 found_again

abbrev given_back : Cache
given_back = cache_block_put (some 0) without_lock

some_turns : Turns no_links new_cache given_back
unfolding cache_get_any find_buffer find_from cache_alloc put_index cache_lookup cache_unlock
    take_up
some_turns =
    turn new_cache without_lock given_back
      (turn new_cache found_again without_lock
        (turn new_cache with_block found_again
          (turn new_cache new_cache with_block (no_turn new_cache) (was_got new_cache 65637 true))
          (looked_up with_block 65637 (omega arith)))
        (unlocked found_again 0))
      (put_back without_lock 0 (omega arith) (omega arith) (omega arith) (λ e. ground arith))

cache_init-Turns_example : IsValid given_back
cache_init-Turns_example = cache_init-Turns no_links (2 ^ 17) 2 true given_back some_turns

cache_get_any-Handed_example :
    ((cache_get_any no_links 96 true new_cache ≡ waits) × (new_cache.used ≡ new_cache.max_buffers))
    ⊎ ((a : ℕ) × (d : Cache) × (cache_get_any no_links 96 true new_cache ≡ got (a, d))
        × Handed new_cache 96 true false a d)
cache_get_any-Handed_example =
    cache_get_any-Handed no_links new_cache 96 true (cache_init-IsValid (2 ^ 17) 2 true)

with_block-IsValid : IsValid with_block
with_block-IsValid =
    cache_init-Turns no_links (2 ^ 17) 2 true with_block
      (turn new_cache new_cache with_block (no_turn new_cache) (was_got new_cache 65637 true))

some_room :
    Countable with_block
      (find_index with_block.heap 65637 (with_block.hash_table (cache_hash_of 65637)))
unfolding cache_get_any find_buffer find_from cache_alloc put_index
some_room = omega arith

cache_lookup-LooksUp_example :
    ((cache_lookup 65637 with_block ≡ (none, with_block))
      × ((a : ℕ)
          → 0 < occurrences a (with_block.hash_table (cache_hash_of 65637))
          → ((with_block.heap a).index == 65637) ≡ false))
    ⊎ ((a : ℕ) × (d : Cache) × LooksUp with_block 65637 a d)
cache_lookup-LooksUp_example = cache_lookup-LooksUp with_block 65637 with_block-IsValid some_room
