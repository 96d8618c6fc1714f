-- ===== src/Cache.antt =====
-- The caches of squashfs-tools/caches-queues-lists.c: buffers that threads hold and share. A
-- function is one critical section; a caller that has to wait gets `waits` and tries again. The
-- address of a buffer is the number of buffers that malloc made before it. Indices are positions
-- on the disk, not negative.
pub mod Chains
pub mod Steps
pub mod Reuse
pub mod Get
pub mod Counts
pub mod Turns
pub mod Lookup
pub mod Valid
mod Tests
use external_squashfs_tools.Common.{
  ℕ, ◌+◌, ◌-◌, ◌%◌, ◌^◌, Bool, true, false, ◌||◌, Option, none, some, List, [], ◌∷◌, ◌++◌, ltb,
  ◌==◌, if◌then◌else◌,
}

-- `struct file_buffer`, as far as a cache sets it; `used` is a char of 8 bits.
pub record CacheBuffer : Type 0 where
  pub index : ℕ
  pub used : ℕ
  pub locked : Bool
  pub wait_on_unlock : Bool
  pub error : Bool

-- What malloc leaves in a buffer is not read before it is set.
abbrev pub new_buffer : CacheBuffer
new_buffer = record { index = 0; used = 0; locked = false; wait_on_unlock = false; error = false }

-- `used` is also `max_count`, of a cache that shrinks. The free list is the ring from its head on,
-- a chain of the hash table the addresses in their order.
pub record Cache : Type 0 where
  pub max_buffers : ℕ
  pub buffer_size : ℕ
  pub count : ℕ
  pub used : ℕ
  pub noshrink_lookup : Bool
  pub first_freelist : Bool
  pub free_list : List ℕ
  pub hash_table : ℕ → List ℕ
  pub heap : ℕ → CacheBuffer
  pub mallocs : ℕ

abbrev pub cache_init :
    (buffer_size max_buffers : ℕ) → (noshrink_lookup first_freelist : Bool) → Cache
cache_init buffer_size max_buffers noshrink_lookup first_freelist = record {
  max_buffers = max_buffers;
  buffer_size = buffer_size;
  count = 0;
  used = 0;
  noshrink_lookup = noshrink_lookup;
  first_freelist = first_freelist;
  free_list = [];
  hash_table = λ h. [];
  heap = λ a. new_buffer;
  mallocs = 0;
}

abbrev pub at_address : ℕ → CacheBuffer → (ℕ → CacheBuffer) → ℕ → CacheBuffer
at_address a b heap x = if x == a then b else heap x

-- CALCULATE_CACHE_HASH.
abbrev pub cache_hash_of : ℕ → ℕ
cache_hash_of index = index % 2 ^ 16

-- Taken out of its place in a list or a chain.
abbrev pub unlink : ℕ → List ℕ → List ℕ
unlink a [] = []
unlink a (b ∷ l) = if b == a then l else b ∷ unlink a l

abbrev pub remove_free_list : ℕ → List ℕ → List ℕ
remove_free_list a l = unlink a l

abbrev pub insert_free_list : ℕ → List ℕ → List ℕ
insert_free_list a l = l ++ (a ∷ [])

abbrev pub insert_cache_hash_table : ℕ → Cache → ℕ → List ℕ
insert_cache_hash_table a c h =
    if h == cache_hash_of (c.heap a).index then a ∷ c.hash_table h else c.hash_table h

abbrev pub is_in : ℕ → List ℕ → Bool
is_in a [] = false
is_in a (b ∷ l) = (b == a) || is_in a l

-- The hash table that comes of removing an entry which is in no chain: its links are what malloc or
-- the last removal left, and the code follows them.
abbrev pub StaleLinks : Type 0
StaleLinks = ℕ → Cache → ℕ → List ℕ

abbrev pub remove_cache_hash_table : StaleLinks → ℕ → Cache → ℕ → List ℕ
remove_cache_hash_table stale a c h =
    let own = cache_hash_of (c.heap a).index in
    if is_in a (c.hash_table own)
    then if h == own then unlink a (c.hash_table h) else c.hash_table h
    else stale a c h

-- The search in a chain.
abbrev pub find_index : (ℕ → CacheBuffer) → (index : ℕ) → List ℕ → Option ℕ
find_index heap index [] = none
find_index heap index (a ∷ l) = if (heap a).index == index then some a else find_index heap index l

-- A buffer that was found is used once more, and leaves the free list.
unfoldable pub take_up : ℕ → Cache → Cache
take_up a c =
    let b = record (c.heap a) { used = ((c.heap a).used + 1) % 2 ^ 8 } in
    if (c.heap a).used == 0
    then record c {
      free_list = remove_free_list a c.free_list;
      used = c.used + 1;
      heap = at_address a b c.heap;
    }
    else record c { heap = at_address a b c.heap }

unfoldable pub cache_lookup : (index : ℕ) → Cache → Option ℕ × Cache
cache_lookup index c = elim (find_index c.heap index (c.hash_table (cache_hash_of index))) [
  | none ↦ (none, c)
  | some a ↦ (some a, take_up a c)
]

-- The flag is the entry's `locked`.
pub cache_lookup_nowait : (index : ℕ) → Cache → Option (ℕ × Bool) × Cache
cache_lookup_nowait index c = elim (find_index c.heap index (c.hash_table (cache_hash_of index))) [
  | none ↦ (none, c)
  | some a ↦ (some (a, (c.heap a).locked), take_up a c)
]

-- `free_list` is `a` and the rest.
pub cache_freelist : StaleLinks → ℕ → Cache → Cache
cache_freelist stale a c = record c {
  free_list = remove_free_list a c.free_list;
  hash_table = remove_cache_hash_table stale a c;
  used = c.used + 1;
}

unfoldable pub cache_alloc : Cache → ℕ × Cache
cache_alloc c = (c.mallocs, record c { count = c.count + 1; mallocs = c.mallocs + 1 })

abbrev pub alloc_used : Cache → Option (ℕ × Cache)
alloc_used c =
    if ltb c.count c.max_buffers
    then some ((cache_alloc c).0, record (cache_alloc c).1 { used = c.used + 1 })
    else none

-- A cache that does not shrink: the free list or a new buffer first, by `first_freelist`.
unfoldable pub find_from : StaleLinks → (free_list : List ℕ) → Cache → Option (ℕ × Cache)
find_from stale [] c = alloc_used c
find_from stale (a ∷ l) c =
    if c.first_freelist
    then some (a, cache_freelist stale a c)
    else if ltb c.count c.max_buffers
    then alloc_used c
    else some (a, cache_freelist stale a c)

unfoldable pub find_buffer : StaleLinks → Cache → Option (ℕ × Cache)
find_buffer stale c = find_from stale c.free_list c

-- A cache that shrinks keeps its largest size.
pub grow_buffer : Cache → Option (ℕ × Cache)
grow_buffer c =
    let (a, d) = cache_alloc c in
    if ltb c.count c.max_buffers
    then some (a, if ltb d.used d.count then record d { used = d.count } else d)
    else none

pub data BufferGot (A : Type 0) : Type 0 where
  waits : BufferGot A
  got : A → BufferGot A

abbrev pub start_buffer : ℕ → (locked : Bool) → Cache → Cache
start_buffer a locked c = record c {
  heap =
      at_address a
        (record {
          index = (c.heap a).index;
          used = 1;
          locked = locked;
          wait_on_unlock = false;
          error = false;
        })
        c.heap;
}

-- Under its index in the hash table, where it is not yet.
unfoldable pub put_index : ℕ → (index : ℕ) → Cache → Cache
put_index a index c =
    let d = record c { heap = at_address a (record (c.heap a) { index = index }) c.heap } in
    record d { hash_table = insert_cache_hash_table a d }

-- The buffer is initialised.
abbrev pub hand_out : (index : ℕ) → (hash : Bool) → Option (ℕ × Cache) → BufferGot (ℕ × Cache)
hand_out index hash none = waits
hand_out index hash (some (a, d)) =
    let e = start_buffer a false d in got (a, if hash then put_index a index e else e)

-- `_cache_get`.
unfoldable pub cache_get_any :
    StaleLinks → (index : ℕ) → (hash : Bool) → Cache → BufferGot (ℕ × Cache)
cache_get_any stale index hash c =
    hand_out index hash (if c.noshrink_lookup then find_buffer stale c else grow_buffer c)

pub cache_get : StaleLinks → (index : ℕ) → Cache → BufferGot (ℕ × Cache)
cache_get stale index c = cache_get_any stale index true c

pub cache_get_nohash : StaleLinks → Cache → BufferGot (ℕ × Cache)
cache_get_nohash stale c = cache_get_any stale 0 false c

pub cache_hash : ℕ → (index : ℕ) → Cache → Cache
cache_hash a index c = put_index a index c

abbrev pub hand_out_locked : (index : ℕ) → Option (ℕ × Cache) → Option (ℕ × Cache)
hand_out_locked index none = none
hand_out_locked index (some (a, d)) = some (a, put_index a index (start_buffer a true d))

-- NULL is `none`.
pub cache_get_nowait : StaleLinks → (index : ℕ) → Cache → Option (ℕ × Cache)
cache_get_nowait stale index c = hand_out_locked index (find_buffer stale c)

unfoldable pub cache_block_put : Option ℕ → Cache → Cache
cache_block_put none c = c
cache_block_put (some a) c =
    let u = ((c.heap a).used + 2 ^ 8 - 1) % 2 ^ 8 in
    let d = record c { heap = at_address a (record (c.heap a) { used = u }) c.heap } in
    if u == 0
    then if c.noshrink_lookup
      then record d { free_list = insert_free_list a d.free_list; used = d.used - 1 }
      else record d { count = d.count - 1 }
    else d

-- `waits` sets `wait_on_unlock`.
pub cache_wait_unlock : ℕ → Cache → Bool × Cache
cache_wait_unlock a c =
    if (c.heap a).locked
    then (
      false,
      record c { heap = at_address a (record (c.heap a) { wait_on_unlock = true }) c.heap },
    )
    else (true, c)

unfoldable pub cache_unlock : ℕ → Cache → Cache
cache_unlock a c = record c {
  heap = at_address a (record (c.heap a) { locked = false; wait_on_unlock = false }) c.heap;
}
