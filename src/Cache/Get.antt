-- ===== src/Cache/Get.antt =====
-- What cache_get hands out.
use mathlib.Core.Bool.{false≢true}
use external_squashfs_tools.Common.{
  ℕ, ◌+◌, ◌<◌, ◌≡◌, refl, ap, ◌∙◌, ◌⊎◌, inl, inr, Bool, true, false, none, some, List, [], ◌∷◌,
  arith, ltb, ◌==◌, if◌then◌else◌, ==_refl, Bool-cases, length,
}
use external_squashfs_tools.Cache.{
  Cache, StaleLinks, alloc_used, cache_alloc, cache_freelist, find_buffer, find_from, start_buffer,
  put_index, waits, got, cache_get_any, hand_out, grow_buffer,
}
use external_squashfs_tools.Cache.Valid.{IsValid}
use external_squashfs_tools.Cache.Reuse.{HandsOut, cache_freelist-HandsOut, alloc-HandsOut}
use external_squashfs_tools.Cache.Steps.{put_index-IsValid}

alloc_used-some :
    (c : Cache)
    → ltb c.count c.max_buffers ≡ true
    → alloc_used c ≡ some (c.mallocs, record (cache_alloc c).1 { used = c.used + 1 })
unfolding cache_alloc
alloc_used-some c e = rw e refl

alloc_used-none : (c : Cache) → ltb c.count c.max_buffers ≡ false → alloc_used c ≡ none
alloc_used-none c e = rw e refl

module _ (stale : StaleLinks) (c : Cache) (a : ℕ) (l : List ℕ) where
  find_from-first :
      c.first_freelist ≡ true → find_from stale (a ∷ l) c ≡ some (a, cache_freelist stale a c)
  unfolding find_from
  find_from-first f =
      ap
        (λ b.
          if b
          then some (a, cache_freelist stale a c)
          else if ltb c.count c.max_buffers
          then alloc_used c
          else some (a, cache_freelist stale a c))
        f

  find_from-second :
      c.first_freelist ≡ false
      → find_from stale (a ∷ l) c
        ≡ (if ltb c.count c.max_buffers then alloc_used c else some (a, cache_freelist stale a c))
  unfolding find_from
  find_from-second f =
      ap
        (λ b.
          if b
          then some (a, cache_freelist stale a c)
          else if ltb c.count c.max_buffers
          then alloc_used c
          else some (a, cache_freelist stale a c))
        f

List-cases : (l : List ℕ) → (l ≡ []) ⊎ ((a : ℕ) × (r : List ℕ) × (l ≡ a ∷ r))
List-cases [] = inl refl
List-cases (a ∷ r) = inr (a, r, refl)

-- What a cache finds: a buffer from the free list, or a new one, or neither is left.
pub data Finds (stale : StaleLinks) (c : Cache) : Type 0 where
  nothing : find_buffer stale c ≡ none → c.count ≡ c.max_buffers → c.free_list ≡ [] → Finds stale c
  finds :
      (a : ℕ) (d : Cache)
      → find_buffer stale c ≡ some (a, d)
      → ((locked : Bool) → HandsOut locked c a d)
      → Finds stale c

pub find_buffer-Finds : (stale : StaleLinks) (c : Cache) → IsValid c → Finds stale c
unfolding find_buffer find_from
find_buffer-Finds stale c k =
    let new = record (cache_alloc c).1 { used = c.used + 1 } in
    elim (List-cases c.free_list) [
      | inl e ↦
          let from = ap (λ l. find_from stale l c) e in
          elim (Bool-cases (ltb c.count c.max_buffers)) [
            | inl m ↦
                finds c.mallocs new (from ∙ alloc_used-some c m)
                  (λ locked. alloc-HandsOut locked c m k)
            | inr m ↦ nothing (from ∙ alloc_used-none c m) (let b = k.bounded in ground arith) e
          ]
      | inr q ↦
          let (a, l, e) = q in
          let from = ap (λ l. find_from stale l c) e in
          let reused = λ (locked : Bool). cache_freelist-HandsOut stale locked a l c e k in
          elim (Bool-cases c.first_freelist) [
            | inl f ↦
                finds a (cache_freelist stale a c) (from ∙ find_from-first stale c a l f) reused
            | inr f ↦ elim (Bool-cases (ltb c.count c.max_buffers)) [
              | inl m ↦
                  finds c.mallocs new
                    (from
                      ∙ find_from-second stale c a l f
                      ∙ ap (λ b. if b then alloc_used c else some (a, cache_freelist stale a c)) m
                      ∙ alloc_used-some c m)
                    (λ locked. alloc-HandsOut locked c m k)
              | inr m ↦
                  finds a (cache_freelist stale a c)
                    (from
                      ∙ find_from-second stale c a l f
                      ∙ ap (λ b. if b then alloc_used c else some (a, cache_freelist stale a c)) m)
                    reused
            ]
          ]
    ]

-- A buffer is handed out: nobody used it, it is used once, and the others are as they were.
pub record Handed (c : Cache) (index : ℕ) (hash locked : Bool) (a : ℕ) (d : Cache) : Type 0 where
  pub unused : (a < c.mallocs) → (c.heap a).used ≡ 0
  pub used_once : (d.heap a).used ≡ 1
  pub lock : (d.heap a).locked ≡ locked
  pub indexed : hash ≡ true → (d.heap a).index ≡ index
  pub others : (x : ℕ) → (x == a) ≡ false → d.heap x ≡ c.heap x
  pub malloced : a < d.mallocs
  pub valid : IsValid d

started : (index : ℕ) (hash locked : Bool) (a : ℕ) (d : Cache) → Cache
started index hash locked a d =
    if hash then put_index a index (start_buffer a locked d) else start_buffer a locked d

started-Handed :
    (c : Cache) (index : ℕ) (hash locked : Bool) (a : ℕ) (d : Cache)
    → HandsOut locked c a d
    → Handed c index hash locked a (started index hash locked a d)
unfolding started put_index
started-Handed c index true locked a d o =
    let e = start_buffer a locked d in
    record {
      unused = o.unused;
      used_once = rw (==_refl a) refl;
      lock = rw (==_refl a) refl;
      indexed = λ q. rw (==_refl a) refl;
      others = λ x n. rw n (o.others x);
      malloced = o.malloced;
      valid = put_index-IsValid a index e o.malloced o.unhashed o.valid;
    }
started-Handed c index false locked a d o = record {
  unused = o.unused;
  used_once = rw (==_refl a) refl;
  lock = rw (==_refl a) refl;
  indexed = λ e. absurd (false≢true e);
  others = λ x e. rw e (o.others x);
  malloced = o.malloced;
  valid = o.valid;
}

full : (c : Cache) → IsValid c → c.count ≡ c.max_buffers → c.free_list ≡ [] → c.used ≡ c.max_buffers
full c k m e = omega (arith, k.counted, m, ap length e)

-- A valid cache makes cache_get and cache_get_nohash wait only when as many buffers as it may have
-- are all in use. Otherwise they hand out a buffer that nobody used, unlocked, with a use count of
-- 1 and, for cache_get, the index asked for; the other buffers are as they were, and the
-- cache is valid. This holds whatever removing a buffer that is in no chain would make of the hash
-- table.
pub cache_get_any-Handed :
    (stale : StaleLinks) (c : Cache) (index : ℕ) (hash : Bool)
    → IsValid c
    → ((cache_get_any stale index hash c ≡ waits) × (c.used ≡ c.max_buffers))
      ⊎ ((a : ℕ) × (d : Cache) × (cache_get_any stale index hash c ≡ got (a, d))
          × Handed c index hash false a d)
unfolding cache_get_any started
cache_get_any-Handed stale c index hash k =
    let from =
      ap (λ b. hand_out index hash (if b then find_buffer stale c else grow_buffer c)) k.keeps in
    elim (find_buffer-Finds stale c k) [
      | nothing e m f ↦ inl (from ∙ ap (hand_out index hash) e, full c k m f)
      | finds a d e o ↦ inr (
        a,
        started index hash false a d,
        from ∙ ap (hand_out index hash) e,
        started-Handed c index hash false a d (o false),
      )
    ]
