-- ===== src/Sorting/Runs.antt =====
-- The rounds double the stretches that are in order.
use external_squashfs_tools.Common.{
  ℕ, zero, suc, ◌*◌, ◌≤◌, ◌<◌, ◌≡◌, refl, sym, ap, ◌∙◌, List, [], ◌∷◌, ◌++◌, append-nil, arith,
  length, length-append, take, drop, take_exact, drop_exact,
}
use external_squashfs_tools.Sorting.{DirEntry, merge, merge_pass}
use external_squashfs_tools.Sorting.Strcmp.{IsSorted}
use external_squashfs_tools.Sorting.Merge.{IsStretch, merge-rest, merge-IsSorted, length-merge}

module _ {ℓ} {A : Type ℓ} where
  abbrev pub concat : List (List (DirEntry A)) → List (DirEntry A)
  concat [] = []
  concat (x ∷ xs) = x ++ concat xs

  -- Stretches in order, of length `k` but for the last, which may be shorter.
  abbrev pub AreRuns : ℕ → List (List (DirEntry A)) → Type 0
  AreRuns k [] = Unit
  AreRuns k (x ∷ []) = IsSorted x × (length x ≤ k)
  AreRuns k (x ∷ (y ∷ xs)) = IsSorted x × ((length x ≡ k) × AreRuns k (y ∷ xs))

  AreRuns-cons :
      (k : ℕ) (x : List (DirEntry A)) (xs : List (List (DirEntry A)))
      → IsSorted x
      → length x ≡ k
      → AreRuns k xs
      → AreRuns k (x ∷ xs)
  AreRuns-cons k x [] s l h = (s, omega arith)
  AreRuns-cons k x (y ∷ xs) s l h = (s, (l, h))

  short-IsStretch : (n : ℕ) (y : List (DirEntry A)) → length y ≤ n → IsStretch n y []
  short-IsStretch zero [] h = tt
  short-IsStretch (suc n) [] h = tt
  short-IsStretch zero (b ∷ y) h = absurd (omega arith)
  short-IsStretch (suc n) (b ∷ y) h = short-IsStretch n y (omega arith)

  exact-IsStretch : (n : ℕ) (y rest : List (DirEntry A)) → length y ≡ n → IsStretch n y rest
  exact-IsStretch zero [] [] h = tt
  exact-IsStretch zero [] (r ∷ rest) h = tt
  exact-IsStretch (suc n) [] rest h = absurd (omega arith)
  exact-IsStretch zero (b ∷ y) rest h = absurd (omega arith)
  exact-IsStretch (suc n) (b ∷ y) rest h = exact-IsStretch n y rest (omega arith)

  take_short : (n : ℕ) (x : List (DirEntry A)) → length x ≤ n → take n x ≡ x
  take_short zero [] h = refl
  take_short (suc n) [] h = refl
  take_short zero (a ∷ x) h = absurd (omega arith)
  take_short (suc n) (a ∷ x) h = ap (λ t. a ∷ t) (take_short n x (omega arith))

  drop_short : (n : ℕ) (x : List (DirEntry A)) → length x ≤ n → drop n x ≡ []
  drop_short zero [] h = refl
  drop_short (suc n) [] h = refl
  drop_short zero (a ∷ x) h = absurd (omega arith)
  drop_short (suc n) (a ∷ x) h = drop_short n x (omega arith)

  -- One step of a round over a list that is not empty.
  pass-cons :
      (fuel k : ℕ) (l x r : List (DirEntry A))
      → 0 < length l
      → take k l ≡ x
      → drop k l ≡ r
      → merge_pass (suc fuel) k l ≡ (merge x k r).0 ++ merge_pass fuel k (merge x k r).1
  unfolding merge_pass
  pass-cons fuel k [] x r h t d = absurd (omega arith)
  pass-cons fuel k (a ∷ l) x r h t d = rw (sym t, sym d) refl

  pass-nil : (fuel k : ℕ) → merge_pass {A = A} fuel k [] ≡ []
  unfolding merge_pass
  pass-nil zero k = refl
  pass-nil (suc fuel) k = refl

  pass-zero : (k : ℕ) (l : List (DirEntry A)) → merge_pass zero k l ≡ l
  unfolding merge_pass
  pass-zero k l = refl

  -- The stretches after a round.
  pub record Doubled (fuel k : ℕ) (xs : List (List (DirEntry A))) : Type ℓ where
    pub runs : List (List (DirEntry A))
    pub are_runs : AreRuns (k * 2) runs
    pub passed : merge_pass fuel k (concat xs) ≡ concat runs

  -- Two stretches are merged, and the round goes on with the rest.
  pass-pair :
      (fuel k : ℕ) (x y : List (DirEntry A)) (rest : List (DirEntry A))
      → 0 < k
      → length x ≡ k
      → IsStretch k y rest
      → merge_pass (suc fuel) k (x ++ (y ++ rest))
        ≡ (merge x k (y ++ rest)).0 ++ merge_pass fuel k rest
  pass-pair fuel k x y rest hk hx h =
      pass-cons fuel k (x ++ (y ++ rest)) x (y ++ rest) (omega (arith, length-append x (y ++ rest)))
        (take_exact x (y ++ rest) k hx) (drop_exact x (y ++ rest) k hx)
      ∙ ap (λ q. (merge x k (y ++ rest)).0 ++ merge_pass fuel k q) (merge-rest x k y rest h)

  pass-last :
      (fuel k : ℕ) (x : List (DirEntry A))
      → IsSorted x
      → length x ≤ k
      → Doubled (suc fuel) k (x ∷ [])
  pass-last fuel k [] s h = record { runs = []; are_runs = tt; passed = pass-nil (suc fuel) k }
  pass-last fuel k (a ∷ x) s h =
      let m = (merge (a ∷ x) k []).0 in
      let n = short-IsStretch k [] (omega arith) in
      record {
        runs = m ∷ [];
        are_runs =
            (merge-IsSorted (a ∷ x) k [] [] n s tt, omega (arith, length-merge (a ∷ x) k [] [] n));
        passed = rw (append-nil (a ∷ x)) (
            pass-cons fuel k (a ∷ x) (a ∷ x) [] (omega arith) (take_short k (a ∷ x) h)
              (drop_short k (a ∷ x) h)
            ∙ (ap (λ q. m ++ merge_pass fuel k q) (merge-rest (a ∷ x) k [] [] n)
                ∙ ap (λ q. m ++ q) (pass-nil fuel k)));
      }

  pub pass-Doubled :
      (fuel k : ℕ) (xs : List (List (DirEntry A)))
      → 0 < k
      → AreRuns k xs
      → length (concat xs) ≤ fuel
      → Doubled fuel k xs
  pass-Doubled fuel k [] hk h f = record { runs = []; are_runs = tt; passed = pass-nil fuel k }
  pass-Doubled zero k (x ∷ []) hk h f = record {
    runs = x ∷ [];
    are_runs = (h.0, omega (arith, h.1));
    passed = pass-zero k (concat (x ∷ []));
  }
  pass-Doubled (suc fuel) k (x ∷ []) hk h f = pass-last fuel k x h.0 h.1
  pass-Doubled zero k (x ∷ (y ∷ xs)) hk h f =
      absurd (omega (arith, length-append x (y ++ concat xs), h.1.0))
  pass-Doubled (suc fuel) k (x ∷ (y ∷ [])) hk h f =
      let i = short-IsStretch k y h.1.1.1 in
      let m = (merge x k (y ++ [])).0 in
      record {
        runs = m ∷ [];
        are_runs = (
          merge-IsSorted x k y [] i h.0 h.1.1.0,
          omega (arith, length-merge x k y [] i, h.1.0, h.1.1.1),
        );
        passed = pass-pair fuel k x y [] hk h.1.0 i ∙ ap (λ q. m ++ q) (pass-nil fuel k);
      }
  pass-Doubled (suc fuel) k (x ∷ (y ∷ (z ∷ xs))) hk h f =
      let rest = concat (z ∷ xs) in
      let i = exact-IsStretch k y rest h.1.1.1.0 in
      let m = (merge x k (y ++ rest)).0 in
      let la = length-append x (y ++ rest) in
      let lb = length-append y rest in
      let d = pass-Doubled fuel k (z ∷ xs) hk h.1.1.1.1 (omega (arith, la, lb, h.1.0, f, hk)) in
      record {
        runs = m ∷ d.runs;
        are_runs =
            AreRuns-cons (k * 2) m d.runs (merge-IsSorted x k y rest i h.0 h.1.1.0)
              (omega (arith, length-merge x k y rest i, h.1.0, h.1.1.1.0)) d.are_runs;
        passed = pass-pair fuel k x y rest hk h.1.0 i ∙ ap (λ q. m ++ q) d.passed;
      }
