-- ===== src/Cache/Turns.antt =====
-- The turns of threads that use a cache as the code asks them to.
use mathlib.Core.Path.{subst}
use external_squashfs_tools.Common.{
  ℕ, ◌-◌, ◌^◌, ◌<◌, ◌≡◌, sym, ap, inl, inr, Bool, true, Option, none, some, Option-cases,
}
use external_squashfs_tools.Cache.{
  Cache, StaleLinks, cache_init, cache_hash_of, find_index, cache_lookup, cache_lookup_nowait,
  start_buffer, BufferGot, waits, got, cache_get_any, hand_out_locked, cache_hash, cache_get_nowait,
  cache_block_put, cache_unlock, cache_wait_unlock,
}
use external_squashfs_tools.Cache.Valid.{
  occurrences, NotHashed, IsValid, cache_init-IsValid, find_index-occurrences,
}
use external_squashfs_tools.Cache.Counts.{used_pos}
use external_squashfs_tools.Cache.Steps.{
  take_up-IsValid, put_index-IsValid, cache_block_put-IsValid, cache_unlock-IsValid,
  cache_wait_unlock-IsValid,
}
use external_squashfs_tools.Cache.Get.{nothing, finds, find_buffer-Finds, cache_get_any-Handed}

-- A buffer that is found can be used once more: its count of uses is a char.
abbrev pub Countable : Cache → Option ℕ → Type 0
Countable c none = Unit
Countable c (some a) = (c.heap a).used < 2 ^ 8 - 1

-- The cache behind a call that may find no buffer.
abbrev pub after_get : Cache → BufferGot (ℕ × Cache) → Cache
after_get c waits = c
after_get c (got (a, d)) = d

abbrev pub after_nowait : Cache → Option (ℕ × Cache) → Cache
after_nowait c none = c
after_nowait c (some (a, d)) = d

-- A turn of a thread. A buffer is put into the hash table, where it is not yet, or given
-- back, by a thread that has it. The last thread gives it back hashed: "a block on the free_list is
-- hashed".
pub data Turn (stale : StaleLinks) : Cache → Cache → Type 0 where
  looked_up :
      (c : Cache) (index : ℕ)
      → Countable c (find_index c.heap index (c.hash_table (cache_hash_of index)))
      → Turn stale c (cache_lookup index c).1
  looked_up_nowait :
      (c : Cache) (index : ℕ)
      → Countable c (find_index c.heap index (c.hash_table (cache_hash_of index)))
      → Turn stale c (cache_lookup_nowait index c).1
  was_got :
      (c : Cache) (index : ℕ) (hash : Bool)
      → Turn stale c (after_get c (cache_get_any stale index hash c))
  was_got_nowait :
      (c : Cache) (index : ℕ) → Turn stale c (after_nowait c (cache_get_nowait stale index c))
  hashed :
      (c : Cache) (a index : ℕ)
      → a < c.mallocs
      → 0 < (c.heap a).used
      → NotHashed c a
      → Turn stale c (cache_hash a index c)
  put_back :
      (c : Cache) (a : ℕ)
      → a < c.mallocs
      → 0 < (c.heap a).used
      → (c.heap a).used < 2 ^ 8
      → ((c.heap a).used ≡ 1 → 0 < occurrences a (c.hash_table (cache_hash_of (c.heap a).index)))
      → Turn stale c (cache_block_put (some a) c)
  waited : (c : Cache) (a : ℕ) → Turn stale c (cache_wait_unlock a c).1
  unlocked : (c : Cache) (a : ℕ) → Turn stale c (cache_unlock a c)

pub data Turns (stale : StaleLinks) : Cache → Cache → Type 0 where
  no_turn : (c : Cache) → Turns stale c c
  turn : (c d e : Cache) → Turns stale c d → Turn stale d e → Turns stale c e

cache_lookup-IsValid :
    (c : Cache) (index : ℕ)
    → Countable c (find_index c.heap index (c.hash_table (cache_hash_of index)))
    → IsValid c
    → IsValid (cache_lookup index c).1
unfolding cache_lookup
cache_lookup-IsValid c index r k =
    let l = c.hash_table (cache_hash_of index) in
    elim (Option-cases (find_index c.heap index l)) [
      | inl e ↦ rw (e, cache_lookup) k
      | inr q ↦
          let (a, e) = q in
          let room : (c.heap a).used < 2 ^ 8 - 1 = subst (Countable c) e r in
          let small =
            k.chains (cache_hash_of index) a (find_index-occurrences c.heap index a l e).0 in
          rw (e, cache_lookup) (take_up-IsValid a c small room k)
    ]

cache_lookup_nowait-IsValid :
    (c : Cache) (index : ℕ)
    → Countable c (find_index c.heap index (c.hash_table (cache_hash_of index)))
    → IsValid c
    → IsValid (cache_lookup_nowait index c).1
unfolding cache_lookup_nowait
cache_lookup_nowait-IsValid c index r k =
    let l = c.hash_table (cache_hash_of index) in
    elim (Option-cases (find_index c.heap index l)) [
      | inl e ↦ rw (e, cache_lookup_nowait) k
      | inr q ↦
          let (a, e) = q in
          let room : (c.heap a).used < 2 ^ 8 - 1 = subst (Countable c) e r in
          let small =
            k.chains (cache_hash_of index) a (find_index-occurrences c.heap index a l e).0 in
          rw (e, cache_lookup_nowait) (take_up-IsValid a c small room k)
    ]

cache_get_nowait-IsValid :
    (stale : StaleLinks) (c : Cache) (index : ℕ)
    → IsValid c
    → IsValid (after_nowait c (cache_get_nowait stale index c))
unfolding cache_get_nowait
cache_get_nowait-IsValid stale c index k = elim (find_buffer-Finds stale c k) [
  | nothing e m f ↦ subst IsValid (ap (λ o. after_nowait c (hand_out_locked index o)) (sym e)) k
  | finds a d e o ↦ subst IsValid (ap (λ o. after_nowait c (hand_out_locked index o)) (sym e)) (
      put_index-IsValid a index (start_buffer a true d) (o true).malloced (o true).unhashed
        (o true).valid)
]

cache_get_any-IsValid :
    (stale : StaleLinks) (c : Cache) (index : ℕ) (hash : Bool)
    → IsValid c
    → IsValid (after_get c (cache_get_any stale index hash c))
cache_get_any-IsValid stale c index hash k = elim (cache_get_any-Handed stale c index hash k) [
  | inl w ↦ subst IsValid (ap (after_get c) (sym w.0)) k
  | inr p ↦ let (a, d, e, h) = p in subst IsValid (ap (after_get c) (sym e)) h.valid
]

Turn-IsValid : (stale : StaleLinks) {c d : Cache} → Turn stale c d → IsValid c → IsValid d
unfolding cache_hash
Turn-IsValid stale (looked_up c index r) k = cache_lookup-IsValid c index r k
Turn-IsValid stale (looked_up_nowait c index r) k = cache_lookup_nowait-IsValid c index r k
Turn-IsValid stale (was_got c index hash) k = cache_get_any-IsValid stale c index hash k
Turn-IsValid stale (was_got_nowait c index) k = cache_get_nowait-IsValid stale c index k
Turn-IsValid stale (hashed c a index h u n) k = put_index-IsValid a index c h n k
Turn-IsValid stale (put_back c a h p s l) k =
    cache_block_put-IsValid a c h p s (used_pos a c k h p) l k
Turn-IsValid stale (waited c a) k = cache_wait_unlock-IsValid a c k
Turn-IsValid stale (unlocked c a) k = cache_unlock-IsValid a c k

Turns-IsValid : (stale : StaleLinks) {c d : Cache} → Turns stale c d → IsValid c → IsValid d
Turns-IsValid stale (no_turn c) k = k
Turns-IsValid stale (turn c d e ts t) k = Turn-IsValid stale t (Turns-IsValid stale ts k)

-- However many turns threads take on a new cache that does not shrink, in any order, if a buffer of
-- the cache is given back only while it is used, with a count below 256, and by its last user only
-- while it is in the chain of its index, put into the hash table only if it is used and in no chain,
-- and found by a lookup only when its count is below 255: the cache has no more than max_buffers
-- buffers, the free list holds each buffer that nobody uses once and no other, `used` counts the
-- rest, and the hash table has only buffers of the cache, each in the chain of its index at most
-- once, those that nobody uses all there. This holds whatever removing a buffer that is in no chain
-- would make of the hash table.
pub cache_init-Turns :
    (stale : StaleLinks) (buffer_size max_buffers : ℕ) (first_freelist : Bool) (c : Cache)
    → Turns stale (cache_init buffer_size max_buffers true first_freelist) c
    → IsValid c
cache_init-Turns stale buffer_size max_buffers first_freelist c ts =
    Turns-IsValid stale ts (cache_init-IsValid buffer_size max_buffers first_freelist)
