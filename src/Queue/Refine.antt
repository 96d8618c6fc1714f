-- ===== src/Queue/Refine.antt =====
-- The array with its two indices behaves as the list of the pointers that it holds.
use mathlib.Core.Option
use native.Mathlib.Nat.{mod-eq_of_lt, mod-eq-sub-mod, mod-add-mod, mod-mod}
use native.Mathlib.Decide.{dec_lt}
use external_squashfs_tools.Common.{
  ℕ, zero, suc, ◌+◌, ◌-◌, ◌%◌, ◌<◌, ◌≡◌, refl, sym, ap, ap₂, ◌∙◌, ◌≢◌, ◌↔◌, ◌⊎◌, inl, inr, Option,
  none, some, List, [], ◌∷◌, ◌++◌, arith, leb, if◌then◌else◌, length, set, length-set, get_or,
  get_or-set_self, get_or-set_ne,
}
use external_squashfs_tools.Queue.{Queue, queue_put, queue_get}
use external_squashfs_tools.Queue.Fifo
use external_squashfs_tools.Queue.Fifo.{Fifo}

pub record IsValid (q : Queue) : Type 0 where
  pub read_in : q.readp < q.size
  pub write_in : q.writep < q.size
  pub storage : length q.slots ≡ q.size

-- How many pointers are queued, as `dump_queue` counts them.
abbrev pub fill : Queue → ℕ
fill q = if leb q.readp q.writep then q.writep - q.readp else q.size - q.readp + q.writep

module _ (slots : List ℕ) (size : ℕ) where
  -- The `n` slots from index `r` on, wrapping at `size`.
  abbrev pub live : ℕ → ℕ → Fifo
  live r zero = []
  live r (suc n) = get_or slots (r % size) 0 ∷ live (r + 1) n

  length-live : (r n : ℕ) → length (live r n) ≡ n
  length-live r zero = refl
  length-live r (suc n) = ap suc (length-live (r + 1) n)

  live-mod : (r s n : ℕ) → r % size ≡ s % size → live r n ≡ live s n
  live-mod r s zero e = refl
  live-mod r s (suc n) e = ap₂ ◌∷◌ (ap (λ i. get_or slots i 0) e) (live-mod (r + 1) (s + 1) n step)
    where
      step : (r + 1) % size ≡ (s + 1) % size
      step = sym (mod-add-mod r size 1) ∙ ap (λ k. (k + 1) % size) e ∙ mod-add-mod s size 1

module _ (size : ℕ) where
  pub mod_cases : (m : ℕ) → m < size + size → (m % size ≡ m) × (m < size) ⊎ (m % size + size ≡ m)
  mod_cases m h = elim (dec_lt m size) [
    | yes p ↦ inl (mod-eq_of_lt p, p)
    | no p ↦ inr (
        omega (
          arith,
          mod-eq-sub-mod {n = m} {m = size} (omega arith),
          mod-eq_of_lt {n = m - size} {m = size} (omega arith),
        ))
  ]

  -- Fewer than `size` steps round the array do not come back to the start.
  step-ne : (r k n : ℕ) → r < size → k < n → n < size → (r + k) % size ≢ (r + n) % size
  step-ne r k n hr h l e = omega (arith, mod_cases (r + k), mod_cases (r + n))

  live-set :
      (slots : List ℕ) (r n i x : ℕ)
      → ((k : ℕ) → k < n → (r + k) % size ≢ i)
      → live (set slots i x) size r n ≡ live slots size r n
  live-set slots r zero i x apart = refl
  live-set slots r (suc n) i x apart =
      ap₂ ◌∷◌ (get_or-set_ne slots x 0 (λ e. apart 0 (omega arith) (here ∙ sym e)))
        (live-set slots (r + 1) n i x (λ k h e. apart (suc k) (omega arith) (there k ∙ e)))
    where
      here : (r + 0) % size ≡ r % size
      here = ap (λ m. m % size) (omega arith)

      there : (k : ℕ) → (r + suc k) % size ≡ (r + 1 + k) % size
      there k = ap (λ m. m % size) (omega arith)

  live-suc :
      (slots : List ℕ) (r n : ℕ)
      → live slots size r (suc n) ≡ live slots size r n ++ (get_or slots ((r + n) % size) 0 ∷ [])
  live-suc slots r zero = ap (λ m. get_or slots (m % size) 0 ∷ []) (omega arith)
  live-suc slots r (suc n) =
      ap (λ l. get_or slots (r % size) 0 ∷ l)
        (live-suc slots (r + 1) n
          ∙ ap (λ m. live slots size (r + 1) n ++ (get_or slots (m % size) 0 ∷ [])) (omega arith))

abbrev pub contents : Queue → Fifo
contents q = live q.slots q.size q.readp (fill q)

pub length-contents : (q : Queue) → length (contents q) ≡ fill q
length-contents q = length-live q.slots q.size q.readp (fill q)

-- The index that is written next lies `fill` steps after the one that is read next.
pub fill_facts :
    {q : Queue} → IsValid q → (fill q < q.size) × ((q.readp + fill q) % q.size ≡ q.writep)
fill_facts {q} v = ground (arith, mod_cases q.size (q.readp + fill q), v.read_in, v.write_in)

abbrev pub view : Option Queue → Option Fifo
view = Option.map contents

abbrev pub view_pair : Option (ℕ × Queue) → Option (ℕ × Fifo)
view_pair = Option.map (λ (x, q). (x, contents q))

-- The queue after a store.
abbrev pub stored : Queue → ℕ → Queue
stored q x = record q { slots = set q.slots q.writep x; writep = (q.writep + 1) % q.size }

-- The queue after a load.
abbrev pub loaded : Queue → Queue
loaded q = record q { readp = (q.readp + 1) % q.size }

module _ {q : Queue} (v : IsValid q) where
  pub put-full : (x : ℕ) → fill q + 1 ≡ q.size → queue_put q x ≡ none
  unfolding queue_put
  put-full x e = ground (arith, mod_cases q.size (q.writep + 1))

  pub put-room : (x : ℕ) → fill q + 1 < q.size → queue_put q x ≡ some (stored q x)
  unfolding queue_put
  put-room x h = ground (arith, mod_cases q.size (q.writep + 1))

  fill-stored : (x : ℕ) → fill q + 1 < q.size → fill (stored q x) ≡ suc (fill q)
  fill-stored x h = ground (arith, mod_cases q.size (q.writep + 1))

  pub stored-IsValid : (x : ℕ) → IsValid (stored q x)
  stored-IsValid x = record {
    read_in = v.read_in;
    write_in = omega (arith, v.write_in);
    storage = length-set q.slots q.writep x ∙ v.storage;
  }

  pub contents-stored :
      (x : ℕ) → fill q + 1 < q.size → contents (stored q x) ≡ contents q ++ (x ∷ [])
  contents-stored x h =
      ap (live (set q.slots q.writep x) q.size q.readp) (fill-stored x h)
      ∙ live-suc q.size (set q.slots q.writep x) q.readp (fill q)
      ∙ ap₂ ◌++◌ old (ap (λ y. y ∷ []) new)
    where
      old : live (set q.slots q.writep x) q.size q.readp (fill q) ≡ contents q
      old = live-set q.size q.slots q.readp (fill q) q.writep x (λ k l e.
          step-ne q.size q.readp k (fill q) v.read_in l (fill_facts v).0 (e ∙ sym (fill_facts v).1))

      new : get_or (set q.slots q.writep x) ((q.readp + fill q) % q.size) 0 ≡ x
      new =
          ap (λ i. get_or (set q.slots q.writep x) i 0) (fill_facts v).1
          ∙ get_or-set_self q.slots q.writep x 0 (omega (arith, v.storage, v.write_in))

  pub get-empty : fill q ≡ 0 → queue_get q ≡ none
  unfolding queue_get
  get-empty e = ground (arith, v.read_in, v.write_in)

  pub get-some : 0 < fill q → queue_get q ≡ some (get_or q.slots q.readp 0, loaded q)
  unfolding queue_get
  get-some h = ground (arith, v.read_in, v.write_in)

  pub loaded-IsValid : IsValid (loaded q)
  loaded-IsValid = record {
    read_in = omega (arith, v.read_in);
    write_in = v.write_in;
    storage = v.storage;
  }

  fill-loaded : 0 < fill q → suc (fill (loaded q)) ≡ fill q
  fill-loaded h = ground (arith, mod_cases q.size (q.readp + 1))

  pub contents-loaded : 0 < fill q → contents q ≡ get_or q.slots q.readp 0 ∷ contents (loaded q)
  contents-loaded h =
      ap (live q.slots q.size q.readp) (sym (fill-loaded h))
      ∙ ap₂ ◌∷◌ (ap (λ i. get_or q.slots i 0) (mod-eq_of_lt v.read_in)) (
          live-mod q.slots q.size (q.readp + 1) ((q.readp + 1) % q.size) (fill (loaded q))
            (sym (mod-mod (q.readp + 1) q.size)))

  -- `queue_put` on a valid queue does what the bounded list does: it waits exactly when `size - 1`
  -- pointers are queued, and otherwise appends the pointer.
  pub put_refines : (x : ℕ) → view (queue_put q x) ≡ Fifo.put (q.size - 1) (contents q) x
  unfolding Fifo.put
  put_refines x = elim (dec_lt (fill q + 1) q.size) [
    | yes h ↦ rw (put-room x h) (ground (arith, length-contents q, contents-stored x h))
    | no h ↦
        rw (put-full x (omega (arith, fill_facts v)))
          (ground (arith, length-contents q, fill_facts v))
  ]

  -- `queue_get` on a valid queue does what the list does: it waits exactly when nothing is queued,
  -- and otherwise takes the oldest pointer.
  pub get_refines : view_pair (queue_get q) ≡ Fifo.get (contents q)
  unfolding Fifo.get
  get_refines = elim (dec_lt 0 (fill q)) [
    | yes h ↦ rw (get-some h, contents-loaded h)
    | no h ↦
        rw (get-empty (omega arith))
          (ap Fifo.get (ap (live q.slots q.size q.readp) {x = 0} (omega arith)))
  ]

  pub put_waits_iff : (x : ℕ) → (queue_put q x ≡ none) ↔ (fill q + 1 ≡ q.size)
  put_waits_iff x = (
    (λ e. elim (dec_lt (fill q + 1) q.size) [
      | yes h ↦ cc (put-room x h)
      | no h ↦ omega (arith, fill_facts v)
    ]),
    put-full x,
  )

  pub get_waits_iff : (queue_get q ≡ none) ↔ (fill q ≡ 0)
  get_waits_iff =
      ((λ e. elim (dec_lt 0 (fill q)) [ yes h ↦ cc (get-some h) | no h ↦ omega arith ]), get-empty)
