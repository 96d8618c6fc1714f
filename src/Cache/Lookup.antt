-- ===== src/Cache/Lookup.antt =====
-- What cache_lookup finds.
use mathlib.Core.Option.{none-ne-some}
use mathlib.Core.Path.{subst}
use external_squashfs_tools.Common.{
  ℕ, ◌+◌, ◌-◌, ◌^◌, ◌<◌, ◌≡◌, refl, sym, ◌∙◌, ◌⊎◌, inl, inr, false, none, some, List, [], ◌∷◌,
  arith, ◌==◌, ==_refl, Bool-cases, Option-cases,
}
use external_squashfs_tools.Cache.{
  CacheBuffer, Cache, cache_hash_of, find_index, take_up, cache_lookup,
}
use external_squashfs_tools.Cache.Valid.{
  find_index-here, find_index-later, occurrences, occurrences_later, find_index-occurrences,
  IsValid,
}
use external_squashfs_tools.Cache.Steps.{take_up-IsValid, not_on_free_list}
use external_squashfs_tools.Cache.Turns.{Countable}

find_index-none :
    (heap : ℕ → CacheBuffer) (index a : ℕ) (l : List ℕ)
    → find_index heap index l ≡ none
    → 0 < occurrences a l
    → ((heap a).index == index) ≡ false
find_index-none heap index a [] h p = absurd (omega (arith, p))
find_index-none heap index a (b ∷ l) h p = elim (Bool-cases ((heap b).index == index)) [
  | inl e ↦ absurd (none-ne-some b (sym h ∙ find_index-here heap index b l e))
  | inr e ↦ elim (Bool-cases (a == b)) [
    | inl s ↦
        let same : b ≡ a = ground arith in subst (λ x. ((heap x).index == index) ≡ false) same e
    | inr s ↦
        find_index-none heap index a l (sym (find_index-later heap index b l e) ∙ h)
          (omega (arith, p, occurrences_later a b l s))
  ]
]

take_up_used :
    (a : ℕ) (c : Cache)
    → (c.heap a).used < 2 ^ 8 - 1
    → ((take_up a c).heap a).used ≡ (c.heap a).used + 1
unfolding take_up
take_up_used a c r = elim (Bool-cases ((c.heap a).used == 0)) [
  | inl e ↦ rw (e, take_up, ==_refl a) (omega arith)
  | inr e ↦ rw (e, take_up, ==_refl a) (omega arith)
]

-- What the caller of a lookup gets: a buffer with the index asked for, used once more than before
-- and not on the free list.
pub record LooksUp (c : Cache) (index : ℕ) (a : ℕ) (d : Cache) : Type 0 where
  pub returned : cache_lookup index c ≡ (some a, d)
  pub indexed : (c.heap a).index ≡ index
  pub used : (d.heap a).used ≡ (c.heap a).used + 1
  pub kept : occurrences a d.free_list ≡ 0

-- In a valid cache, where the buffer to be found is used fewer than 255 times: cache_lookup
-- returns NULL and leaves the cache as it is, only if no buffer in the chain has the index, and
-- otherwise a buffer that has it, with its use counted and so that it will not be reused.
pub cache_lookup-LooksUp :
    (c : Cache) (index : ℕ)
    → IsValid c
    → Countable c (find_index c.heap index (c.hash_table (cache_hash_of index)))
    → ((cache_lookup index c ≡ (none, c))
        × ((a : ℕ)
            → 0 < occurrences a (c.hash_table (cache_hash_of index))
            → ((c.heap a).index == index) ≡ false))
      ⊎ ((a : ℕ) × (d : Cache) × LooksUp c index a d)
unfolding cache_lookup
cache_lookup-LooksUp c index k r =
    let l = c.hash_table (cache_hash_of index) in
    elim (Option-cases (find_index c.heap index l)) [
      | inl e ↦ inl (rw (e, cache_lookup) refl, λ a p. find_index-none c.heap index a l e p)
      | inr q ↦
          let (a, e) = q in
          let room : (c.heap a).used < 2 ^ 8 - 1 = subst (Countable c) e r in
          let (p, i) = find_index-occurrences c.heap index a l e in
          let used = take_up_used a c room in
          let valid = take_up-IsValid a c (k.chains (cache_hash_of index) a p) room k in
          inr (
            a,
            take_up a c,
            record {
              returned = rw (e, cache_lookup) refl;
              indexed = i;
              used = used;
              kept = not_on_free_list a (take_up a c) valid (omega (arith, used));
            },
          )
    ]
