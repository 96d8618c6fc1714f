-- ===== src/Paths/Steps.antt =====
-- What the loops of `matches` make of one name.
use external_squashfs_tools.Common.{
  ℕ, ◌≡◌, refl, sym, ap, ◌∙◌, inl, inr, Bool, true, false, ◌||◌, Option, none, some, List, [], ◌∷◌,
  ◌++◌, append-nil, append_assoc, arith, Bool-cases,
}
use external_squashfs_tools.Paths.{
  Pathname, no_names, leaf_name, branch_name, is_match, match_names, match_paths,
}
use external_squashfs_tools.Paths.Reach.{reach}

module _ (use_regex : Bool) (regcomp_fails : List ℕ → Bool)
    (regexec fnmatch : (pattern name : List ℕ) → Bool) where
  abbrev pub matched : (pattern name : List ℕ) → Bool
  matched = is_match use_regex regcomp_fails regexec fnmatch

  -- A set of trees: one of them has a way.
  abbrev pub any_reach : (short : Bool) → List Pathname → List (List ℕ) → Bool
  any_reach short [] cs = false
  any_reach short (p ∷ ps) cs = reach matched short p cs || any_reach short ps cs

  any_reach-append :
      (short : Bool) (ps qs : List Pathname) (cs : List (List ℕ))
      → any_reach short (ps ++ qs) cs ≡ (any_reach short ps cs || any_reach short qs cs)
  any_reach-append short [] qs cs = refl
  any_reach-append short (p ∷ ps) qs cs =
      let e = any_reach-append short ps qs cs in rw e (ground arith)

  -- What one name makes of trees that say `says`: a leaf, or trees for the names below it.
  pub data Step (says : Bool → List (List ℕ) → Bool) (new : List Pathname)
      (result : Option (List Pathname)) : Type 0 where
    at_leaf :
        result ≡ none
        → ((short : Bool) (cs : List (List ℕ)) → says short cs ≡ true)
        → Step says new result
    below :
        (extra : List Pathname)
        → result ≡ some (new ++ extra)
        → ((short : Bool) (cs : List (List ℕ)) → says short cs ≡ any_reach short extra cs)
        → Step says new result

  match_names-Step :
      (name : List ℕ) (path : Pathname) (new : List Pathname)
      → Step
          (λ short cs. reach matched short path (name ∷ cs))
          new
          (match_names use_regex regcomp_fails regexec fnmatch name path new)
  unfolding match_names
  match_names-Step name no_names new = below [] (ap some (sym (append-nil new))) (λ short cs. refl)
  match_names-Step name (leaf_name pattern rest) new = elim (Bool-cases (matched pattern name)) [
    | inl e ↦ at_leaf (rw e refl) (λ short cs. rw e refl)
    | inr e ↦ elim (match_names-Step name rest new) [
      | at_leaf r h ↦ at_leaf (rw (e, r) refl) (λ short cs. rw e (h short cs))
      | below extra r h ↦ below extra (rw (e, r) refl) (λ short cs. rw e (h short cs))
    ]
  ]
  match_names-Step name (branch_name pattern paths rest) new =
      elim (Bool-cases (matched pattern name)) [
        | inl e ↦ elim (match_names-Step name rest (new ++ (paths ∷ []))) [
          | at_leaf r h ↦
              at_leaf (rw (e, r) refl) (λ short cs. let k = h short cs in rw (e, k) (ground arith))
          | below extra r h ↦
              below (paths ∷ extra) (rw e (r ∙ ap some (append_assoc new (paths ∷ []) extra)))
                (λ short cs. let k = h short cs in rw (e, k) refl)
        ]
        | inr e ↦ elim (match_names-Step name rest new) [
          | at_leaf r h ↦ at_leaf (rw (e, r) refl) (λ short cs. rw e (h short cs))
          | below extra r h ↦ below extra (rw (e, r) refl) (λ short cs. rw e (h short cs))
        ]
      ]

  pub match_paths-Step :
      (name : List ℕ) (paths new : List Pathname)
      → Step
          (λ short cs. any_reach short paths (name ∷ cs))
          new
          (match_paths use_regex regcomp_fails regexec fnmatch name paths new)
  unfolding match_paths
  match_paths-Step name [] new = below [] (ap some (sym (append-nil new))) (λ short cs. refl)
  match_paths-Step name (path ∷ paths) new = elim (match_names-Step name path new) [
    | at_leaf r h ↦ at_leaf (rw (r, match_paths) refl) (λ short cs. let k = h short cs in rw k refl)
    | below extra r h ↦ elim (match_paths-Step name paths (new ++ extra)) [
      | at_leaf r' h' ↦
          at_leaf (rw (r, match_paths) r') (λ short cs. let k = h' short cs in rw k (ground arith))
      | below more r' h' ↦
          below (extra ++ more) (rw (r, match_paths) (r' ∙ ap some (append_assoc new extra more)))
            (λ short cs.
              let k = h short cs in
              let k' = h' short cs in rw (k, k') (sym (any_reach-append short extra more cs)))
    ]
  ]
