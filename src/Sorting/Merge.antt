-- ===== src/Sorting/Merge.antt =====
-- One merge: the first list and a stretch of the second become one list in order.
use external_squashfs_tools.Common.{
  ℕ, zero, suc, ◌+◌, ◌≡◌, refl, ap, inl, inr, true, false, List, [], ◌∷◌, ◌++◌, arith, Bool-cases,
  length, take, drop,
}
use external_squashfs_tools.Sorting.{strcmp_le, DirEntry, merge, merge_into}
use external_squashfs_tools.Sorting.Strcmp.{AllGe, IsSorted, AllGe-trans, strcmp_le_total}

module _ {ℓ} {A : Type ℓ} where
  -- The stretch of `n` entries, or of all there are.
  abbrev pub IsStretch : ℕ → List (DirEntry A) → List (DirEntry A) → Type 0
  IsStretch n [] [] = Unit
  IsStretch zero [] (r ∷ rest) = Unit
  IsStretch (suc n) [] (r ∷ rest) = ⊥
  IsStretch zero (b ∷ y) rest = ⊥
  IsStretch (suc n) (b ∷ y) rest = IsStretch n y rest

  pub stretch-take :
      (n : ℕ) (y rest : List (DirEntry A)) → IsStretch n y rest → take n (y ++ rest) ≡ y
  stretch-take zero [] [] h = refl
  stretch-take (suc n) [] [] h = refl
  stretch-take zero [] (r ∷ rest) h = refl
  stretch-take (suc n) [] (r ∷ rest) h = absurd h
  stretch-take zero (b ∷ y) rest h = absurd h
  stretch-take (suc n) (b ∷ y) rest h = ap (λ t. b ∷ t) (stretch-take n y rest h)

  pub stretch-drop :
      (n : ℕ) (y rest : List (DirEntry A)) → IsStretch n y rest → drop n (y ++ rest) ≡ rest
  stretch-drop zero [] [] h = refl
  stretch-drop (suc n) [] [] h = refl
  stretch-drop zero [] (r ∷ rest) h = refl
  stretch-drop (suc n) [] (r ∷ rest) h = absurd h
  stretch-drop zero (b ∷ y) rest h = absurd h
  stretch-drop (suc n) (b ∷ y) rest h = stretch-drop n y rest h

  pub merge-left :
      (a b : DirEntry A) (x : List (DirEntry A)) (n : ℕ) (l : List (DirEntry A))
      → strcmp_le a.name b.name ≡ true
      → merge (a ∷ x) (suc n) (b ∷ l)
        ≡ (a ∷ (merge x (suc n) (b ∷ l)).0, (merge x (suc n) (b ∷ l)).1)
  unfolding merge merge_into
  merge-left a b x n l e = rw (e, merge, merge_into) refl

  pub merge-right :
      (a b : DirEntry A) (x : List (DirEntry A)) (n : ℕ) (l : List (DirEntry A))
      → strcmp_le a.name b.name ≡ false
      → merge (a ∷ x) (suc n) (b ∷ l) ≡ (b ∷ (merge (a ∷ x) n l).0, (merge (a ∷ x) n l).1)
  unfolding merge merge_into
  merge-right a b x n l e = rw (e, merge, merge_into) refl

  -- What is left of the second list.
  pub merge-rest :
      (x : List (DirEntry A)) (n : ℕ) (y rest : List (DirEntry A))
      → IsStretch n y rest
      → (merge x n (y ++ rest)).1 ≡ rest
  unfolding merge merge_into
  merge-rest [] n y rest h = stretch-drop n y rest h
  merge-rest (a ∷ x) zero [] [] h = refl
  merge-rest (a ∷ x) (suc n) [] [] h = refl
  merge-rest (a ∷ x) zero [] (r ∷ rest) h = refl
  merge-rest (a ∷ x) (suc n) [] (r ∷ rest) h = absurd h
  merge-rest (a ∷ x) zero (b ∷ y) rest h = absurd h
  merge-rest (a ∷ x) (suc n) (b ∷ y) rest h = elim (Bool-cases (strcmp_le a.name b.name)) [
    | inl e ↦ rw (merge-left a b x n (y ++ rest) e) (merge-rest x (suc n) (b ∷ y) rest h)
    | inr e ↦ rw (merge-right a b x n (y ++ rest) e) (merge-rest (a ∷ x) n y rest h)
  ]

  pub merge-AllGe :
      (c : DirEntry A) (x : List (DirEntry A)) (n : ℕ) (y rest : List (DirEntry A))
      → IsStretch n y rest
      → AllGe c x
      → AllGe c y
      → AllGe c (merge x n (y ++ rest)).0
  unfolding merge merge_into
  merge-AllGe c [] n y rest h hx hy = rw (stretch-take n y rest h) hy
  merge-AllGe c (a ∷ x) zero [] [] h hx hy = hx
  merge-AllGe c (a ∷ x) (suc n) [] [] h hx hy = hx
  merge-AllGe c (a ∷ x) zero [] (r ∷ rest) h hx hy = hx
  merge-AllGe c (a ∷ x) (suc n) [] (r ∷ rest) h hx hy = absurd h
  merge-AllGe c (a ∷ x) zero (b ∷ y) rest h hx hy = absurd h
  merge-AllGe c (a ∷ x) (suc n) (b ∷ y) rest h hx hy = elim (Bool-cases (strcmp_le a.name b.name)) [
    | inl e ↦
        rw (merge-left a b x n (y ++ rest) e) (hx.0, merge-AllGe c x (suc n) (b ∷ y) rest h hx.1 hy)
    | inr e ↦
        rw (merge-right a b x n (y ++ rest) e) (hy.0, merge-AllGe c (a ∷ x) n y rest h hx hy.1)
  ]

  pub merge-IsSorted :
      (x : List (DirEntry A)) (n : ℕ) (y rest : List (DirEntry A))
      → IsStretch n y rest
      → IsSorted x
      → IsSorted y
      → IsSorted (merge x n (y ++ rest)).0
  unfolding merge merge_into
  merge-IsSorted [] n y rest h hx hy = rw (stretch-take n y rest h) hy
  merge-IsSorted (a ∷ x) zero [] [] h hx hy = hx
  merge-IsSorted (a ∷ x) (suc n) [] [] h hx hy = hx
  merge-IsSorted (a ∷ x) zero [] (r ∷ rest) h hx hy = hx
  merge-IsSorted (a ∷ x) (suc n) [] (r ∷ rest) h hx hy = absurd h
  merge-IsSorted (a ∷ x) zero (b ∷ y) rest h hx hy = absurd h
  merge-IsSorted (a ∷ x) (suc n) (b ∷ y) rest h hx hy =
      elim (Bool-cases (strcmp_le a.name b.name)) [
        | inl e ↦ rw (merge-left a b x n (y ++ rest) e) (
          merge-AllGe a x (suc n) (b ∷ y) rest h hx.0 (e, AllGe-trans a b y e hy.0),
          merge-IsSorted x (suc n) (b ∷ y) rest h hx.1 hy,
        )
        | inr e ↦
            let f = strcmp_le_total a.name b.name e in
            rw (merge-right a b x n (y ++ rest) e) (
              merge-AllGe b (a ∷ x) n y rest h (f, AllGe-trans b a x f hx.0) hy.0,
              merge-IsSorted (a ∷ x) n y rest h hx hy.1,
            )
      ]

  pub length-merge :
      (x : List (DirEntry A)) (n : ℕ) (y rest : List (DirEntry A))
      → IsStretch n y rest
      → length (merge x n (y ++ rest)).0 ≡ length x + length y
  unfolding merge merge_into
  length-merge [] n y rest h = rw (stretch-take n y rest h) (omega arith)
  length-merge (a ∷ x) zero [] [] h = omega arith
  length-merge (a ∷ x) (suc n) [] [] h = omega arith
  length-merge (a ∷ x) zero [] (r ∷ rest) h = omega arith
  length-merge (a ∷ x) (suc n) [] (r ∷ rest) h = absurd h
  length-merge (a ∷ x) zero (b ∷ y) rest h = absurd h
  length-merge (a ∷ x) (suc n) (b ∷ y) rest h = elim (Bool-cases (strcmp_le a.name b.name)) [
    | inl e ↦
        rw (merge-left a b x n (y ++ rest) e) (omega (arith, length-merge x (suc n) (b ∷ y) rest h))
    | inr e ↦
        rw (merge-right a b x n (y ++ rest) e) (omega (arith, length-merge (a ∷ x) n y rest h))
  ]
