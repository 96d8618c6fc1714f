-- ===== src/Cache/Valid.antt =====
-- What is true of a cache between the turns of its threads.
use mathlib.Core.Option.{none-ne-some, some-injective}
use external_squashfs_tools.Common.{
  ℕ, ◌+◌, ◌≤◌, ◌<◌, ◌≡◌, refl, sym, ◌∙◌, inl, inr, Bool, true, false, ◌&&◌, some, List, [], ◌∷◌,
  ◌++◌, arith, ltb, ◌==◌, if◌then◌else◌, ==_iff, ==_refl, Bool-cases, length,
}
use external_squashfs_tools.Cache.{
  CacheBuffer, Cache, cache_init, cache_hash_of, unlink, find_index,
}

-- How often an address stands in a list.
abbrev pub occurrences : ℕ → List ℕ → ℕ
occurrences x [] = 0
occurrences x (a ∷ l) = (if x == a then 1 else 0) + occurrences x l

pub occurrences_first : (a : ℕ) (l : List ℕ) → occurrences a (a ∷ l) ≡ 1 + occurrences a l
occurrences_first a l = rw (==_refl a) refl

pub occurrences_later :
    (a b : ℕ) (l : List ℕ) → (a == b) ≡ false → occurrences a (b ∷ l) ≡ occurrences a l
occurrences_later a b l e = rw e (omega arith)

pub occurrences-unlink :
    (x a : ℕ) (l : List ℕ)
    → 0 < occurrences a l
    → occurrences x (unlink a l) + (if x == a then 1 else 0) ≡ occurrences x l
occurrences-unlink x a [] h = absurd (omega (arith, h))
occurrences-unlink x a (b ∷ l) h = elim (Bool-cases (b == a)) [
  | inl e ↦ let same : b ≡ a = ground arith in rw (e, same) (omega arith)
  | inr e ↦
      let other : (a == b) ≡ false = ground arith in
      let left : 0 < occurrences a l = omega (arith, h, occurrences_later a b l other) in
      let r = occurrences-unlink x a l left in rw e (omega (arith, r))
]

pub occurrences-unlink_le : (x a : ℕ) (l : List ℕ) → occurrences x (unlink a l) ≤ occurrences x l
occurrences-unlink_le x a [] = omega arith
occurrences-unlink_le x a (b ∷ l) = elim (Bool-cases (b == a)) [
  | inl e ↦ rw e (omega arith)
  | inr e ↦ let r = occurrences-unlink_le x a l in rw e (omega (arith, r))
]

pub length-unlink : (a : ℕ) (l : List ℕ) → 0 < occurrences a l → length (unlink a l) + 1 ≡ length l
length-unlink a [] h = absurd (omega (arith, h))
length-unlink a (b ∷ l) h = elim (Bool-cases (b == a)) [
  | inl e ↦ rw e (omega arith)
  | inr e ↦
      let other : (a == b) ≡ false = ground arith in
      let left : 0 < occurrences a l = omega (arith, h, occurrences_later a b l other) in
      let r = length-unlink a l left in rw e (omega (arith, r))
]

pub occurrences-last :
    (x a : ℕ) (l : List ℕ)
    → occurrences x (l ++ (a ∷ [])) ≡ occurrences x l + (if x == a then 1 else 0)
occurrences-last x a [] = omega arith
occurrences-last x a (b ∷ l) = omega (arith, occurrences-last x a l)

pub find_index-here :
    (heap : ℕ → CacheBuffer) (index b : ℕ) (l : List ℕ)
    → ((heap b).index == index) ≡ true
    → find_index heap index (b ∷ l) ≡ some b
find_index-here heap index b l e = rw e refl

pub find_index-later :
    (heap : ℕ → CacheBuffer) (index b : ℕ) (l : List ℕ)
    → ((heap b).index == index) ≡ false
    → find_index heap index (b ∷ l) ≡ find_index heap index l
find_index-later heap index b l e = rw e refl

pub find_index-occurrences :
    (heap : ℕ → CacheBuffer) (index a : ℕ) (l : List ℕ)
    → find_index heap index l ≡ some a
    → (0 < occurrences a l) × ((heap a).index ≡ index)
find_index-occurrences heap index a [] h = absurd (none-ne-some _ h)
find_index-occurrences heap index a (b ∷ l) h = elim (Bool-cases ((heap b).index == index)) [
  | inl e ↦
      let same = some-injective b a (sym (find_index-here heap index b l e) ∙ h) in
      let here : (a == b) ≡ true = ground arith in
      (rw here (omega arith), rw⁻¹ same ((==_iff (heap b).index index).0 e))
  | inr e ↦
      let (p, q) =
        find_index-occurrences heap index a l (sym (find_index-later heap index b l e) ∙ h) in
      (omega (arith, p), q)
]

-- A buffer that nobody uses, of those that malloc made.
abbrev pub is_free : Cache → ℕ → Bool
is_free c a = ltb a c.mallocs && ((c.heap a).used == 0)

-- A buffer stands in the chain of its index only, once, and one that nobody uses does stand there.
pub record IsTable (table : ℕ → List ℕ) (heap : ℕ → CacheBuffer) (mallocs : ℕ) : Type 0 where
  pub placed : (h a : ℕ) → 0 < occurrences a (table h) → h ≡ cache_hash_of (heap a).index
  pub once : (h a : ℕ) → occurrences a (table h) ≤ 1
  pub hashed :
      (a : ℕ)
      → a < mallocs
      → (heap a).used ≡ 0
      → 0 < occurrences a (table (cache_hash_of (heap a).index))

-- In no chain.
abbrev pub NotHashed : Cache → ℕ → Type 0
NotHashed c a = (h : ℕ) → occurrences a (c.hash_table h) ≡ 0

-- A cache that keeps its buffers: no more than it may have, those that nobody uses once on the
-- free list, the others counted, and only buffers of the cache in the
-- chains, where those that nobody uses are.
pub record IsValid (c : Cache) : Type 0 where
  pub keeps : c.noshrink_lookup ≡ true
  pub bounded : c.count ≤ c.max_buffers
  pub counted : c.used + length c.free_list ≡ c.count
  pub made : c.mallocs ≡ c.count
  pub free : (a : ℕ) → occurrences a c.free_list ≡ (if is_free c a then 1 else 0)
  pub chains : (h a : ℕ) → 0 < occurrences a (c.hash_table h) → a < c.mallocs
  pub table : IsTable c.hash_table c.heap c.mallocs

pub cache_init-IsValid :
    (buffer_size max_buffers : ℕ) (first_freelist : Bool)
    → IsValid (cache_init buffer_size max_buffers true first_freelist)
cache_init-IsValid buffer_size max_buffers first_freelist = record {
  keeps = refl;
  bounded = omega arith;
  counted = omega arith;
  made = refl;
  free = λ a. let f : ltb a 0 ≡ false = ground arith in rw f refl;
  chains = λ h a p. absurd (omega (arith, p));
  table = record {
    placed = λ h a p. absurd (omega (arith, p));
    once = λ h a. omega arith;
    hashed = λ a p u. absurd (omega (arith, p));
  };
}
