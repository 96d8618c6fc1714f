-- ===== src/Cache/Counts.antt =====
-- A buffer in use is not on the free list, so that the cache counts it.
use external_squashfs_tools.Common.{
  ℕ, zero, suc, ◌+◌, ◌≤◌, ◌<◌, ◌≡◌, refl, sym, ap, ◌∙◌, inl, inr, List, [], ◌∷◌, arith, ltb, ◌==◌,
  if◌then◌else◌, Bool-cases, length,
}
use external_squashfs_tools.Cache.{Cache}
use external_squashfs_tools.Cache.Valid.{occurrences, occurrences_first, IsValid}

-- The members below `n`.
abbrev total : (n : ℕ) → List ℕ → ℕ
total zero l = 0
total (suc n) l = occurrences n l + total n l

total_none : (n : ℕ) → total n [] ≡ 0
total_none zero = refl
total_none (suc n) = let e = total_none n in omega (arith, e)

total_cons : (n a : ℕ) (l : List ℕ) → total n (a ∷ l) ≡ (if ltb a n then 1 else 0) + total n l
total_cons zero a l = ground arith
total_cons (suc n) a l = let e = total_cons n a l in ground (arith, e)

total-length : (n : ℕ) (l : List ℕ) → ((x : ℕ) → 0 < occurrences x l → x < n) → total n l ≡ length l
total-length n [] h = total_none n
total-length n (a ∷ l) h =
    let small : a < n = h a (omega (arith, occurrences_first a l)) in
    let e = total_cons n a l in
    let r = total-length n l (λ x p. h x (omega (arith, p))) in ground (arith, small, e, r)

total_le : (n : ℕ) (l : List ℕ) → ((x : ℕ) → occurrences x l ≤ 1) → total n l ≤ n
total_le zero l h = omega arith
total_le (suc n) l h = omega (arith, h n, total_le n l h)

total_lt :
    (n a : ℕ) (l : List ℕ)
    → ((x : ℕ) → occurrences x l ≤ 1)
    → a < n
    → occurrences a l ≡ 0
    → total n l < n
total_lt zero a l h s z = absurd (omega (arith, s))
total_lt (suc n) a l h s z = elim (Bool-cases (a == n)) [
  | inl e ↦
      let same : a ≡ n = ground arith in
      let z' : occurrences n l ≡ 0 = ap (λ x. occurrences x l) (sym same) ∙ z in
      omega (arith, z', total_le n l h)
  | inr e ↦ let below : a < n = ground (arith, s, e) in omega (arith, h n, total_lt n a l h below z)
]

pub used_pos : (a : ℕ) (c : Cache) → IsValid c → a < c.mallocs → 0 < (c.heap a).used → 0 < c.used
used_pos a c k h u =
    let once : (x : ℕ) → occurrences x c.free_list ≤ 1 = λ x. ground (arith, k.free x) in
    let mine : (x : ℕ) → 0 < occurrences x c.free_list → x < c.mallocs =
      λ x p. ground (arith, k.free x, p) in
    let none_free : occurrences a c.free_list ≡ 0 = ground (arith, k.free a, u) in
    omega (
      arith,
      k.counted,
      k.made,
      total-length c.mallocs c.free_list mine,
      total_lt c.mallocs a c.free_list once h none_free,
    )
