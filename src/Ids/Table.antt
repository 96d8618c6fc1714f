-- ===== src/Ids/Table.antt =====
-- The table holds each id once, and the two functions give the index of the id asked for.
use external_squashfs_tools.Common.{
  ℕ, zero, suc, ◌+◌, ◌≤◌, ◌<◌, ◌≡◌, refl, sym, ap, ◌∙◌, ◌≢◌, ◌⊎◌, inl, inr, false, Option, none,
  some, List, [], ◌∷◌, ◌++◌, arith, ◌==◌, if◌then◌else◌, ==_refl, Bool-cases, length, length-append,
  get_or,
}
use mathlib.Core.Path.{subst}
use external_squashfs_tools.Ids.{
  IdEntry, Ids, squashfs_ids, id_hash, entry_at, nobody, find_id, get_id, push_chain, create_id,
}

abbrev pub In : ℕ → List ℕ → Type 0
In x [] = ⊥
In x (y ∷ ys) = (x ≡ y) ⊎ In x ys

abbrev pub id_at : Ids → ℕ → ℕ
id_at s i = (entry_at s.id_table i).id

-- Every entry is in its id's chain, the chains hold indices, and no id is there twice.
pub record IsTable (s : Ids) : Type 0 where
  pub hashed : (i : ℕ) → i < length s.id_table → In i (s.id_hash_table (id_hash (id_at s i)))
  pub chained : (h p : ℕ) → In p (s.id_hash_table h) → p < length s.id_table
  pub distinct :
      (i j : ℕ) → i < length s.id_table → j < length s.id_table → id_at s i ≡ id_at s j → i ≡ j
  pub bounded : length s.id_table ≤ squashfs_ids

-- What a search gives.
abbrev Found : List IdEntry → List ℕ → ℕ → Option ℕ → Type 0
Found table chain id none = (p : ℕ) → In p chain → (entry_at table p).id ≢ id
Found table chain id (some p) = In p chain × ((entry_at table p).id ≡ id)

Found-later :
    (table : List IdEntry) (q : ℕ) (chain : List ℕ) (id : ℕ) (o : Option ℕ)
    → (entry_at table q).id ≢ id
    → Found table chain id o
    → Found table (q ∷ chain) id o
Found-later table q chain id none h f = λ p i. elim i [ inl e ↦ rw e h | inr j ↦ f p j ]
Found-later table q chain id (some p) h f = (inr f.0, f.1)

find_id-Found :
    (table : List IdEntry) (chain : List ℕ) (id : ℕ) → Found table chain id (find_id table chain id)
unfolding find_id
find_id-Found table [] id = λ p i. elim i [ ]
find_id-Found table (q ∷ chain) id =
    let rest = find_id-Found table chain id in
    elim (Bool-cases ((entry_at table q).id == id)) [
      | inl e ↦ rw e (inl refl, ground (arith, e))
      | inr e ↦
          rw e (Found-later table q chain id (find_id table chain id) (ground (arith, e)) rest)
    ]

pub absent :
    (s : Ids) (id : ℕ)
    → IsTable s
    → get_id id s ≡ none
    → (i : ℕ) → i < length s.id_table
    → id_at s i ≢ id
unfolding get_id
absent s id t e i h k =
    let f : Found s.id_table (s.id_hash_table (id_hash id)) id none =
      subst (Found s.id_table (s.id_hash_table (id_hash id)) id) e
        (find_id-Found s.id_table (s.id_hash_table (id_hash id)) id) in
    f i (subst (λ x. In i (s.id_hash_table (id_hash x))) k (t.hashed i h)) k

pub present :
    (s : Ids) (id p : ℕ)
    → IsTable s
    → get_id id s ≡ some p
    → (p < length s.id_table) × (id_at s p ≡ id)
unfolding get_id
present s id p t e =
    let f : Found s.id_table (s.id_hash_table (id_hash id)) id (some p) =
      subst (Found s.id_table (s.id_hash_table (id_hash id)) id) e
        (find_id-Found s.id_table (s.id_hash_table (id_hash id)) id) in
    (t.chained (id_hash id) p f.0, f.1)

get_or-append :
    (xs : List IdEntry) (y : IdEntry) (i : ℕ)
    → i < length xs
    → get_or (xs ++ (y ∷ [])) i nobody ≡ get_or xs i nobody
get_or-append [] y i h = absurd (omega arith)
get_or-append (x ∷ xs) y zero h = refl
get_or-append (x ∷ xs) y (suc i) h = get_or-append xs y i (omega arith)

get_or-last : (xs : List IdEntry) (y : IdEntry) → get_or (xs ++ (y ∷ [])) (length xs) nobody ≡ y
get_or-last [] y = refl
get_or-last (x ∷ xs) y = get_or-last xs y

In-push : (t : ℕ → List ℕ) (hash p x h : ℕ) → In x (t h) → In x (push_chain t hash p h)
In-push t hash p x h i = elim (Bool-cases (h == hash)) [ inl e ↦ rw e (inr i) | inr e ↦ rw e i ]

push-In : (t : ℕ → List ℕ) (hash p x h : ℕ) → In x (push_chain t hash p h) → (x ≡ p) ⊎ In x (t h)
push-In t hash p x h i = elim (Bool-cases (h == hash)) [
  | inl e ↦ subst (λ b. In x (if b then p ∷ t h else t h)) e i
  | inr e ↦ inr (subst (λ b. In x (if b then p ∷ t h else t h)) e i)
]

module _ (s : Ids) (id : ℕ) where
  abbrev n : ℕ
  n = length s.id_table

  pub length-create_id : length (create_id id s).id_table ≡ n + 1
  unfolding create_id
  length-create_id =
      omega (
        arith,
        length-append s.id_table (record { id = id; isa_uid = false; isa_gid = false } ∷ []),
      )

  pub create_id-old : (i : ℕ) → i < n → id_at (create_id id s) i ≡ id_at s i
  unfolding create_id
  create_id-old i h =
      ap (λ e. e.id)
        (get_or-append s.id_table (record { id = id; isa_uid = false; isa_gid = false }) i h)

  pub create_id-new : id_at (create_id id s) n ≡ id
  unfolding create_id
  create_id-new =
      ap (λ e. e.id) (get_or-last s.id_table (record { id = id; isa_uid = false; isa_gid = false }))

  In-create_id : (x h : ℕ) → In x (s.id_hash_table h) → In x ((create_id id s).id_hash_table h)
  unfolding create_id
  In-create_id x h i = In-push s.id_hash_table (id_hash id) n x h i

  create_id-In :
      (x h : ℕ) → In x ((create_id id s).id_hash_table h) → (x ≡ n) ⊎ In x (s.id_hash_table h)
  unfolding create_id
  create_id-In x h i = push-In s.id_hash_table (id_hash id) n x h i

  In-new : In n ((create_id id s).id_hash_table (id_hash id))
  unfolding create_id
  In-new = rw (==_refl (id_hash id)) (inl refl)

  old_or_new : (i : ℕ) → i < length (create_id id s).id_table → (i < n) ⊎ (i ≡ n)
  old_or_new i h = let l = length-create_id in ground arith

  pub create_id-IsTable :
      IsTable s → ((i : ℕ) → i < n → id_at s i ≢ id) → n < squashfs_ids → IsTable (create_id id s)
  create_id-IsTable t fresh room = record {
    hashed = λ i h. elim (old_or_new i h) [
      | inl o ↦ rw (create_id-old i o) (In-create_id i (id_hash (id_at s i)) (t.hashed i o))
      | inr e ↦ rw (e, create_id-new) In-new
    ];
    chained = λ h p i. elim (create_id-In p h i) [
      | inl e ↦ omega (arith, length-create_id, e)
      | inr j ↦ omega (arith, length-create_id, t.chained h p j)
    ];
    distinct = λ i j hi hj e. elim (old_or_new i hi) [
      | inl a ↦ elim (old_or_new j hj) [
        | inl b ↦ t.distinct i j a b (sym (create_id-old i a) ∙ (e ∙ create_id-old j b))
        | inr b ↦ absurd (
            fresh i a
              (sym (create_id-old i a) ∙ (e ∙ (ap (id_at (create_id id s)) b ∙ create_id-new))))
      ]
      | inr a ↦ elim (old_or_new j hj) [
        | inl b ↦ absurd (
            fresh j b
              (sym (create_id-old j b) ∙ (sym e ∙ (ap (id_at (create_id id s)) a ∙ create_id-new))))
        | inr b ↦ a ∙ sym b
      ]
    ];
    bounded = omega (arith, length-create_id, room);
  }
