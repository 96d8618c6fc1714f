-- ===== src/Cache/Steps.antt =====
-- Every operation keeps a cache valid.
use external_squashfs_tools.Common.{
  ℕ, ◌+◌, ◌-◌, ◌%◌, ◌^◌, ◌<◌, ◌≡◌, refl, sym, ap, ◌∙◌, ◌⊎◌, inl, inr, true, false, ◌&&◌, some, List,
  [], ◌∷◌, ◌++◌, arith, ltb, ◌==◌, if◌then◌else◌, ==_iff, ==_refl, Bool-cases, length-append,
}
use external_squashfs_tools.Cache.{
  CacheBuffer, Cache, unlink, take_up, at_address, cache_hash_of, put_index,
  insert_cache_hash_table, cache_block_put, cache_unlock, cache_wait_unlock,
}
use external_squashfs_tools.Cache.Valid.{
  occurrences, length-unlink, occurrences-last, NotHashed, IsValid,
}
use external_squashfs_tools.Cache.Chains.{
  unlink_other, unlink_same, inserted_other, changed-IsTable, put_index-IsTable,
}

-- The free list when one buffer changes, which may be a new one.
pub one_changes :
    (a : ℕ) (b : CacheBuffer) (c : Cache) (l : List ℕ) (mallocs : ℕ)
    → IsValid c
    → occurrences a l ≡ (if ltb a mallocs && (b.used == 0) then 1 else 0)
    → ((x : ℕ) → (x == a) ≡ false → occurrences x l ≡ occurrences x c.free_list)
    → ((x : ℕ) → (x == a) ≡ false → ltb x c.mallocs ≡ ltb x mallocs)
    → (x : ℕ)
    → occurrences x l ≡ (if ltb x mallocs && ((at_address a b c.heap x).used == 0) then 1 else 0)
one_changes a b c l mallocs k here others older x = elim (Bool-cases (x == a)) [
  | inl e ↦ let same : x ≡ a = ground arith in rw (e, same) here
  | inr e ↦
      rw e
        (others x e ∙ k.free x ∙ ap (λ m. if m && ((c.heap x).used == 0) then 1 else 0) (older x e))
]

pub on_free_list :
    (a : ℕ) (c : Cache)
    → IsValid c
    → a < c.mallocs
    → (c.heap a).used ≡ 0
    → occurrences a c.free_list ≡ 1
on_free_list a c k h u = ground (arith, k.free a, h, u)

pub not_on_free_list :
    (a : ℕ) (c : Cache) → IsValid c → 0 < (c.heap a).used → occurrences a c.free_list ≡ 0
not_on_free_list a c k u = ground (arith, k.free a, u)

-- A buffer that is used is changed and stays in use, or keeps its use.
changed-IsValid :
    (a : ℕ) (b : CacheBuffer) (c : Cache)
    → IsValid c
    → (b.used == 0) ≡ ((c.heap a).used == 0)
    → b.index ≡ (c.heap a).index
    → IsValid (record c { heap = at_address a b c.heap })
changed-IsValid a b c k u same = record {
  keeps = k.keeps;
  bounded = k.bounded;
  counted = k.counted;
  made = k.made;
  free =
      one_changes a b c c.free_list c.mallocs k
        (k.free a ∙ ap (λ z. if ltb a c.mallocs && z then 1 else 0) (sym u)) (λ x e. refl)
        (λ x e. refl);
  chains = k.chains;
  table =
      changed-IsTable a b c.heap same c.hash_table c.mallocs c.mallocs k.table (λ x e h. h)
        (λ h z. k.table.hashed a h (ground (arith, u, z)));
}

pub take_up-IsValid :
    (a : ℕ) (c : Cache)
    → a < c.mallocs
    → (c.heap a).used < 2 ^ 8 - 1
    → IsValid c
    → IsValid (take_up a c)
unfolding take_up
take_up-IsValid a c h r k =
    let b = record (c.heap a) { used = ((c.heap a).used + 1) % 2 ^ 8 } in
    let in_use : (b.used == 0) ≡ false = ground arith in
    elim (Bool-cases ((c.heap a).used == 0)) [
      | inl e ↦
          let one = on_free_list a c k h (ground arith) in
          let some_free : 0 < occurrences a c.free_list = omega (arith, one) in
          rw (e, take_up)
            (record {
              keeps = k.keeps;
              bounded = k.bounded;
              counted = omega (arith, k.counted, length-unlink a c.free_list some_free);
              made = k.made;
              free =
                  one_changes a b c (unlink a c.free_list) c.mallocs k
                    (unlink_same a c.free_list one ∙ ground (arith, in_use))
                    (λ x f. unlink_other x a c.free_list some_free f) (λ x f. refl);
              chains = k.chains;
              table =
                  changed-IsTable a b c.heap refl c.hash_table c.mallocs c.mallocs k.table
                    (λ x f s. s) (λ s z. absurd (ground (arith, z, in_use)));
            })
      | inr e ↦ rw (e, take_up) (changed-IsValid a b c k (in_use ∙ sym e) refl)
    ]

insert_found :
    (a : ℕ) (c : Cache) (h x : ℕ)
    → 0 < occurrences x (insert_cache_hash_table a c h)
    → (x ≡ a) ⊎ (0 < occurrences x (c.hash_table h))
insert_found a c h x p = elim (Bool-cases (x == a)) [
  | inl f ↦ inl ((==_iff x a).0 f)
  | inr f ↦ inr (omega (arith, p, inserted_other a c h x f))
]

pub put_index-IsValid :
    (a index : ℕ) (c : Cache)
    → a < c.mallocs
    → NotHashed c a
    → IsValid c
    → IsValid (put_index a index c)
unfolding put_index
put_index-IsValid a index c h n k =
    let b = record (c.heap a) { index = index } in
    let d = record c { heap = at_address a b c.heap } in
    record {
      keeps = k.keeps;
      bounded = k.bounded;
      counted = k.counted;
      made = k.made;
      free = one_changes a b c c.free_list c.mallocs k (k.free a) (λ x e. refl) (λ x e. refl);
      chains = λ g x p. elim (insert_found a d g x p) [ inl e ↦ rw e h | inr q ↦ k.chains g x q ];
      table = put_index-IsTable a index c n k.table;
    }

pub cache_block_put-IsValid :
    (a : ℕ) (c : Cache)
    → a < c.mallocs
    → 0 < (c.heap a).used
    → (c.heap a).used < 2 ^ 8
    → 0 < c.used
    → ((c.heap a).used ≡ 1 → 0 < occurrences a (c.hash_table (cache_hash_of (c.heap a).index)))
    → IsValid c
    → IsValid (cache_block_put (some a) c)
unfolding cache_block_put
cache_block_put-IsValid a c h p s q last k =
    let u = ((c.heap a).used + 2 ^ 8 - 1) % 2 ^ 8 in
    let b = record (c.heap a) { used = u } in
    let keeps = k.keeps in
    elim (Bool-cases (u == 0)) [
      | inl e ↦
          let none_free = not_on_free_list a c k p in
          rw (e, keeps, cache_block_put)
            (record {
              keeps = refl;
              bounded = k.bounded;
              counted = omega (arith, k.counted, length-append c.free_list (a ∷ []), q);
              made = k.made;
              free =
                  one_changes a b c (c.free_list ++ (a ∷ [])) c.mallocs k
                    (occurrences-last a a c.free_list ∙ ground (arith, none_free, e, h, ==_refl a))
                    (λ x f. occurrences-last x a c.free_list ∙ ground (arith, f)) (λ x f. refl);
              chains = k.chains;
              table =
                  changed-IsTable a b c.heap refl c.hash_table c.mallocs c.mallocs k.table
                    (λ x f t. t) (λ t z. last (ground (arith, e, p, s)));
            })
      | inr e ↦ rw (e, cache_block_put) (changed-IsValid a b c k (e ∙ sym (ground (arith, p))) refl)
    ]

pub cache_unlock-IsValid : (a : ℕ) (c : Cache) → IsValid c → IsValid (cache_unlock a c)
unfolding cache_unlock
cache_unlock-IsValid a c k =
    changed-IsValid a (record (c.heap a) { locked = false; wait_on_unlock = false }) c k refl refl

pub cache_wait_unlock-IsValid : (a : ℕ) (c : Cache) → IsValid c → IsValid (cache_wait_unlock a c).1
unfolding cache_wait_unlock
cache_wait_unlock-IsValid a c k = elim (Bool-cases (c.heap a).locked) [
  | inl e ↦
      rw (e, cache_wait_unlock)
        (changed-IsValid a (record (c.heap a) { locked = true; wait_on_unlock = true }) c k refl
          refl)
  | inr e ↦ rw (e, cache_wait_unlock) k
]
