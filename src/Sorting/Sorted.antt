-- ===== src/Sorting/Sorted.antt =====
-- The sort: enough rounds are made, and the list is in order.
use external_squashfs_tools.Common.{
  ℕ, zero, suc, ◌+◌, ◌*◌, ◌≤◌, ◌<◌, ◌≡◌, refl, sym, ap, ◌∙◌, inl, inr, false, List, [], ◌∷◌, ◌++◌,
  append-nil, arith, ltb, Bool-cases, length, length-append,
}
use external_squashfs_tools.Sorting.{DirEntry, merge_pass, sort_loop, sort_directory}
use external_squashfs_tools.Sorting.Strcmp.{IsSorted}
use external_squashfs_tools.Sorting.Pass.{merge_pass-Perm, sort_directory-Perm}
use external_squashfs_tools.Sorting.Runs.{concat, AreRuns, pass-Doubled}
use mathlib.Core.Path.{subst}
use mathlib.Core.List.{Permᴰ}

module _ {ℓ} {A : Type ℓ} where
  length-Perm : {l m : List (DirEntry A)} → Permᴰ l m → length l ≡ length m
  length-Perm Permᴰ.nil = refl
  length-Perm (Permᴰ.cons e p) = ap suc (length-Perm p)
  length-Perm (Permᴰ.swap e f) = refl
  length-Perm (Permᴰ.trans p q) = length-Perm p ∙ length-Perm q

  no_entries : (l : List (DirEntry A)) → length l ≡ 0 → l ≡ []
  no_entries [] h = refl
  no_entries (a ∷ l) h = absurd (omega arith)

  -- One stretch that takes in the list.
  whole-IsSorted :
      (k : ℕ) (xs : List (List (DirEntry A)))
      → AreRuns k xs
      → length (concat xs) ≤ k
      → IsSorted (concat xs)
  whole-IsSorted k [] h l = tt
  whole-IsSorted k (x ∷ []) h l = rw (append-nil x) h.0
  whole-IsSorted k (x ∷ (y ∷ xs)) h l =
      let e =
        no_entries (concat (y ∷ xs)) (omega (arith, length-append x (concat (y ∷ xs)), h.1.0)) in
      subst (λ r. IsSorted (x ++ r)) (sym e) (rw (append-nil x) h.0)

  sort_loop-IsSorted :
      (fuel stride count : ℕ) (l : List (DirEntry A)) (xs : List (List (DirEntry A)))
      → 0 < stride
      → l ≡ concat xs
      → AreRuns stride xs
      → length l ≡ count
      → count ≤ stride + fuel
      → IsSorted (sort_loop fuel stride count l)
  unfolding sort_loop
  sort_loop-IsSorted zero stride count l xs hs e r n f =
      rw e (whole-IsSorted stride xs r (omega (arith, ap length e)))
  sort_loop-IsSorted (suc fuel) stride count l xs hs e r n f =
      let next = merge_pass (length l) stride l in
      let d = pass-Doubled (length l) stride xs hs r (omega (arith, ap length e)) in
      let p : next ≡ concat d.runs = ap (merge_pass (length l) stride) e ∙ d.passed in
      let len : length next ≡ count = length-Perm (merge_pass-Perm (length l) stride l) ∙ n in
      elim (Bool-cases (ltb (stride * 2) count)) [
        | inl more ↦
            rw (more, sort_loop)
              (sort_loop-IsSorted fuel (stride * 2) count next d.runs (omega arith) p d.are_runs len
                (omega (arith, hs, f)))
        | inr done ↦
            let small : count ≤ stride * 2 = ground (arith, done) in
            rw (done, sort_loop)
              (subst IsSorted (sym p) (
                whole-IsSorted (stride * 2) d.runs d.are_runs
                  (omega (arith, ap length p, len, small))))
      ]

  abbrev singles : List (DirEntry A) → List (List (DirEntry A))
  singles [] = []
  singles (a ∷ l) = (a ∷ []) ∷ singles l

  concat-singles : (l : List (DirEntry A)) → l ≡ concat (singles l)
  concat-singles [] = refl
  concat-singles (a ∷ l) = ap (λ r. a ∷ r) (concat-singles l)

  AreRuns-singles : (l : List (DirEntry A)) → AreRuns 1 (singles l)
  AreRuns-singles [] = tt
  AreRuns-singles (a ∷ []) = ((tt, tt), omega arith)
  AreRuns-singles (a ∷ (b ∷ l)) = ((tt, tt), (refl, AreRuns-singles (b ∷ l)))

  sorted : (l : List (DirEntry A)) → IsSorted (sort_directory (length l) l)
  unfolding sort_directory
  sorted [] = tt
  sorted (a ∷ []) = (tt, tt)
  sorted (a ∷ (b ∷ l)) =
      let n = length (a ∷ (b ∷ l)) in
      let large : ltb n 2 ≡ false = ground arith in
      rw large (
        sort_loop-IsSorted n 1 n (a ∷ (b ∷ l)) (singles (a ∷ (b ∷ l))) (omega arith)
          (concat-singles (a ∷ (b ∷ l))) (AreRuns-singles (a ∷ (b ∷ l))) refl (omega arith))

  -- For a directory of any entries, whose count is their number: the list that the sort leaves
  -- is in the order of strcmp on the names, and is a permutation of the entries.
  pub sort_directory-IsSorted :
      (l : List (DirEntry A))
      → IsSorted (sort_directory (length l) l) × Permᴰ (sort_directory (length l) l) l
  sort_directory-IsSorted l = (sorted l, sort_directory-Perm (length l) l)
