-- ===== src/Cache/Reuse.antt =====
-- A buffer from the free list, and a new one, when it is started.
use external_squashfs_tools.Common.{
  ℕ, ◌+◌, ◌<◌, ◌≡◌, refl, ap, ◌∙◌, Bool, true, false, List, ◌∷◌, arith, ltb, ltb→lt,
}
use external_squashfs_tools.Cache.{
  Cache, unlink, StaleLinks, start_buffer, cache_freelist, cache_alloc,
}
use external_squashfs_tools.Cache.Valid.{
  occurrences, length-unlink, occurrences_first, NotHashed, IsValid,
}
use external_squashfs_tools.Cache.Chains.{
  unlink_other, unlink_same, remove_at_most, remove_gone, removed-IsTable, changed-IsTable,
}
use external_squashfs_tools.Cache.Steps.{one_changes, on_free_list}

-- What a buffer is that a cache hands out: one that nobody used, ready to be used.
pub record HandsOut (locked : Bool) (c : Cache) (a : ℕ) (d : Cache) : Type 0 where
  pub unused : (a < c.mallocs) → (c.heap a).used ≡ 0
  pub malloced : a < d.mallocs
  pub valid : IsValid (start_buffer a locked d)
  pub others : (x : ℕ) → d.heap x ≡ c.heap x
  pub unhashed : NotHashed d a

pub cache_freelist-HandsOut :
    (stale : StaleLinks) (locked : Bool) (a : ℕ) (l : List ℕ) (c : Cache)
    → c.free_list ≡ a ∷ l
    → IsValid c
    → HandsOut locked c a (cache_freelist stale a c)
unfolding cache_freelist
cache_freelist-HandsOut stale locked a l c e k =
    let some_free : 0 < occurrences a c.free_list =
      omega (arith, ap (occurrences a) e, occurrences_first a l) in
    let free = k.free a in
    let small : a < c.mallocs = ground (arith, free, some_free) in
    let none_use : (c.heap a).used ≡ 0 = ground (arith, free, some_free) in
    let hashed = k.table.hashed a small none_use in
    let b = record (c.heap a) {
      used = 1;
      locked = locked;
      wait_on_unlock = false;
      error = false;
    } in
    record {
      unused = λ h. none_use;
      malloced = small;
      valid = record {
        keeps = k.keeps;
        bounded = k.bounded;
        counted = omega (arith, k.counted, length-unlink a c.free_list some_free);
        made = k.made;
        free =
            one_changes a b c (unlink a c.free_list) c.mallocs k
              (unlink_same a c.free_list (on_free_list a c k small none_use) ∙ ground arith)
              (λ x f. unlink_other x a c.free_list some_free f) (λ x f. refl);
        chains = λ h x p. k.chains h x (omega (arith, p, remove_at_most stale a c hashed h x));
        table = removed-IsTable stale a c hashed b refl refl k.table;
      };
      others = λ x. refl;
      unhashed = remove_gone stale a c hashed k.table;
    }

pub alloc-HandsOut :
    (locked : Bool) (c : Cache)
    → ltb c.count c.max_buffers ≡ true
    → IsValid c
    → HandsOut locked c c.mallocs (record (cache_alloc c).1 { used = c.used + 1 })
unfolding cache_alloc
alloc-HandsOut locked c e k =
    let b = record (c.heap c.mallocs) {
      used = 1;
      locked = locked;
      wait_on_unlock = false;
      error = false;
    } in
    let new : occurrences c.mallocs c.free_list ≡ 0 = ground (arith, k.free c.mallocs) in
    record {
      unused = λ h. absurd (omega (arith, h));
      malloced = omega arith;
      valid = record {
        keeps = k.keeps;
        bounded = omega (arith, k.bounded, ltb→lt c.count c.max_buffers e);
        counted = omega (arith, k.counted);
        made = omega (arith, k.made);
        free =
            one_changes c.mallocs b c c.free_list (c.mallocs + 1) k (new ∙ ground arith)
              (λ x f. refl) (λ x f. ground (arith, f));
        chains = λ h x p. omega (arith, k.chains h x p);
        table =
            changed-IsTable c.mallocs b c.heap refl c.hash_table c.mallocs (c.mallocs + 1) k.table
              (λ x f s. ground (arith, f, s)) (λ s z. absurd (omega (arith, z)));
      };
      others = λ x. refl;
      unhashed = λ h. ground (arith, k.chains h c.mallocs);
    }
