-- ===== src/Cache/Chains.antt =====
-- What the operations make of the hash table.
use mathlib.Core.Path.{subst}
use external_squashfs_tools.Common.{
  ℕ, ◌+◌, ◌≤◌, ◌<◌, ◌≡◌, refl, sym, ap, ◌∙◌, inl, inr, true, false, List, [], ◌∷◌, arith, ◌==◌,
  if◌then◌else◌, ==_iff, ==_refl, Bool-cases,
}
use external_squashfs_tools.Cache.{
  CacheBuffer, Cache, unlink, at_address, cache_hash_of, put_index, insert_cache_hash_table, is_in,
  StaleLinks, remove_cache_hash_table,
}
use external_squashfs_tools.Cache.Valid.{
  occurrences, occurrences-unlink, occurrences-unlink_le, occurrences_later, occurrences_first,
  IsTable, NotHashed,
}

is_in-occurrences : (a : ℕ) (l : List ℕ) → 0 < occurrences a l → is_in a l ≡ true
is_in-occurrences a [] h = absurd (omega (arith, h))
is_in-occurrences a (b ∷ l) h = elim (Bool-cases (b == a)) [
  | inl e ↦ rw e refl
  | inr e ↦
      let other : (a == b) ≡ false = ground arith in
      let left : 0 < occurrences a l = omega (arith, h, occurrences_later a b l other) in
      rw e (is_in-occurrences a l left)
]

pub unlink_other :
    (x a : ℕ) (l : List ℕ)
    → 0 < occurrences a l
    → (x == a) ≡ false
    → occurrences x (unlink a l) ≡ occurrences x l
unlink_other x a l h e = ground (arith, occurrences-unlink x a l h, e)

pub unlink_same : (a : ℕ) (l : List ℕ) → occurrences a l ≡ 1 → occurrences a (unlink a l) ≡ 0
unlink_same a l h = ground (arith, occurrences-unlink a a l (omega (arith, h)), ==_refl a, h)

module _ (a : ℕ) (b : CacheBuffer) (heap : ℕ → CacheBuffer) (same : b.index ≡ (heap a).index) where
  at_index : (x : ℕ) → (at_address a b heap x).index ≡ (heap x).index
  at_index x = elim (Bool-cases (x == a)) [
    | inl e ↦
        let here : x ≡ a = (==_iff x a).0 e in rw e (same ∙ ap (λ y. (heap y).index) (sym here))
    | inr e ↦ rw e refl
  ]

  at_used_here : (x : ℕ) → (x == a) ≡ true → (at_address a b heap x).used ≡ b.used
  at_used_here x e = rw e refl

  at_used_other : (x : ℕ) → (x == a) ≡ false → (at_address a b heap x).used ≡ (heap x).used
  at_used_other x e = rw e refl

  -- One buffer changes, which may be a new one, and keeps its index.
  pub changed-IsTable :
      (table : ℕ → List ℕ) (mallocs mallocs' : ℕ)
      → IsTable table heap mallocs
      → ((x : ℕ) → (x == a) ≡ false → x < mallocs' → x < mallocs)
      → (a < mallocs' → b.used ≡ 0 → 0 < occurrences a (table (cache_hash_of (heap a).index)))
      → IsTable table (at_address a b heap) mallocs'
  changed-IsTable table mallocs mallocs' k older free = record {
    placed = λ h x p. k.placed h x p ∙ ap cache_hash_of (sym (at_index x));
    once = k.once;
    hashed = λ x s u.
        subst (λ i. 0 < occurrences x (table (cache_hash_of i))) (sym (at_index x))
          (elim (Bool-cases (x == a)) [
            | inl e ↦
                let here : x ≡ a = (==_iff x a).0 e in
                subst (λ y. 0 < occurrences y (table (cache_hash_of (heap y).index))) (sym here)
                  (free (omega (arith, s, here)) (sym (at_used_here x e) ∙ u))
            | inr e ↦ k.hashed x (older x e s) (sym (at_used_other x e) ∙ u)
          ]);
  }

module _ (stale : StaleLinks) (a : ℕ) (c : Cache)
    (hashed : 0 < occurrences a (c.hash_table (cache_hash_of (c.heap a).index))) where
  remove_hashed :
      (h : ℕ)
      → remove_cache_hash_table stale a c h ≡ (
          if h == cache_hash_of (c.heap a).index then unlink a (c.hash_table h) else c.hash_table h)
  remove_hashed h =
      rw (is_in-occurrences a (c.hash_table (cache_hash_of (c.heap a).index)) hashed) refl

  pub remove_at_most :
      (h x : ℕ)
      → occurrences x (remove_cache_hash_table stale a c h) ≤ occurrences x (c.hash_table h)
  remove_at_most h x =
      rw (remove_hashed h) (elim (Bool-cases (h == cache_hash_of (c.heap a).index)) [
        | inl e ↦ rw e (occurrences-unlink_le x a (c.hash_table h))
        | inr e ↦ rw e (omega arith)
      ])

  remove_other :
      (h x : ℕ)
      → (x == a) ≡ false
      → occurrences x (remove_cache_hash_table stale a c h) ≡ occurrences x (c.hash_table h)
  remove_other h x n =
      rw (remove_hashed h) (elim (Bool-cases (h == cache_hash_of (c.heap a).index)) [
        | inl e ↦
            let here = (==_iff h (cache_hash_of (c.heap a).index)).0 e in
            rw e (
              unlink_other x a (c.hash_table h)
                (subst (λ g. 0 < occurrences a (c.hash_table g)) (sym here) hashed) n)
        | inr e ↦ rw e refl
      ])

  pub remove_gone :
      IsTable c.hash_table c.heap c.mallocs
      → (h : ℕ) → occurrences a (remove_cache_hash_table stale a c h) ≡ 0
  remove_gone k h = rw (remove_hashed h) (elim (Bool-cases (h == cache_hash_of (c.heap a).index)) [
    | inl e ↦
        let here = (==_iff h (cache_hash_of (c.heap a).index)).0 e in
        let there = subst (λ g. 0 < occurrences a (c.hash_table g)) (sym here) hashed in
        rw e (unlink_same a (c.hash_table h) (omega (arith, there, k.once h a)))
    | inr e ↦ rw e (ground (arith, k.placed h a, e))
  ])

  -- A buffer leaves its chain, is changed and used.
  pub removed-IsTable :
      (b : CacheBuffer)
      → b.index ≡ (c.heap a).index
      → b.used ≡ 1
      → IsTable c.hash_table c.heap c.mallocs
      → IsTable (remove_cache_hash_table stale a c) (at_address a b c.heap) c.mallocs
  removed-IsTable b same used k = record {
    placed = λ h x p.
        k.placed h x (omega (arith, p, remove_at_most h x))
        ∙ ap cache_hash_of (sym (at_index a b c.heap same x));
    once = λ h x. omega (arith, k.once h x, remove_at_most h x);
    hashed = λ x s u. elim (Bool-cases (x == a)) [
      | inl e ↦ absurd (omega (arith, used, sym (at_used_here a b c.heap same x e) ∙ u))
      | inr e ↦
          let at = at_index a b c.heap same x in
          let there = k.hashed x s (sym (at_used_other a b c.heap same x e) ∙ u) in
          subst (λ i. 0 < occurrences x (remove_cache_hash_table stale a c (cache_hash_of i)))
            (sym at) (omega (arith, there, remove_other (cache_hash_of (c.heap x).index) x e))
    ];
  }

inserted_here :
    (a : ℕ) (c : Cache) (h : ℕ)
    → occurrences a (insert_cache_hash_table a c h)
      ≡ (if h == cache_hash_of (c.heap a).index then 1 else 0) + occurrences a (c.hash_table h)
inserted_here a c h = elim (Bool-cases (h == cache_hash_of (c.heap a).index)) [
  | inl e ↦ rw e (occurrences_first a (c.hash_table h))
  | inr e ↦ rw e (omega arith)
]

pub inserted_other :
    (a : ℕ) (c : Cache) (h x : ℕ)
    → (x == a) ≡ false
    → occurrences x (insert_cache_hash_table a c h) ≡ occurrences x (c.hash_table h)
inserted_other a c h x n = elim (Bool-cases (h == cache_hash_of (c.heap a).index)) [
  | inl e ↦ rw e (occurrences_later x a (c.hash_table h) n)
  | inr e ↦ rw e refl
]

-- A buffer that is in no chain is put into that of its new index.
pub put_index-IsTable :
    (a index : ℕ) (c : Cache)
    → NotHashed c a
    → IsTable c.hash_table c.heap c.mallocs
    → let d = put_index a index c in IsTable d.hash_table d.heap d.mallocs
unfolding put_index
put_index-IsTable a index c n k =
    let d = record c { heap = at_address a (record (c.heap a) { index = index }) c.heap } in
    let own = cache_hash_of (d.heap a).index in
    let same : (x : ℕ) → (x == a) ≡ false → d.heap x ≡ c.heap x = λ x e. rw e refl in
    record {
      placed = λ h x p. elim (Bool-cases (x == a)) [
        | inl e ↦
            let here : a ≡ x = sym ((==_iff x a).0 e) in
            subst (λ y. h ≡ cache_hash_of (d.heap y).index) here
              (let q =
                  subst (λ y. 0 < occurrences y (insert_cache_hash_table a d h)) (sym here) p in
                elim (Bool-cases (h == own)) [
                  | inl f ↦ (==_iff h own).0 f
                  | inr f ↦ absurd (
                      omega (
                        arith,
                        q,
                        n h,
                        inserted_here a d h,
                        ap (λ z. (if z then 1 else 0) + occurrences a (c.hash_table h)) f,
                      ))
                ])
        | inr e ↦
            k.placed h x (omega (arith, p, inserted_other a d h x e))
            ∙ ap (λ b. cache_hash_of b.index) (sym (same x e))
      ];
      once = λ h x. elim (Bool-cases (x == a)) [
        | inl e ↦
            let here : a ≡ x = sym ((==_iff x a).0 e) in
            subst (λ y. occurrences y (insert_cache_hash_table a d h) ≤ 1) here
              (ground (arith, n h, inserted_here a d h))
        | inr e ↦ omega (arith, k.once h x, inserted_other a d h x e)
      ];
      hashed = λ x s u. elim (Bool-cases (x == a)) [
        | inl e ↦
            let here : a ≡ x = sym ((==_iff x a).0 e) in
            subst
              (λ y.
                0 < occurrences y (insert_cache_hash_table a d (cache_hash_of (d.heap y).index)))
              here
              (omega (
                arith,
                inserted_here a d own,
                ap (λ z. (if z then 1 else 0) + occurrences a (c.hash_table own)) (==_refl own),
              ))
        | inr e ↦
            let there = k.hashed x s (ap (λ b. b.used) (sym (same x e)) ∙ u) in
            subst (λ b. 0 < occurrences x (insert_cache_hash_table a d (cache_hash_of b.index)))
              (sym (same x e))
              (omega (arith, there, inserted_other a d (cache_hash_of (c.heap x).index) x e))
      ];
    }
