-- ===== src/Paths/Added.antt =====
-- `add_path` adds what its target says to the tree.
use mathlib.Core.Path.{subst}
use external_squashfs_tools.Common.{
  ℕ, zero, suc, ◌<◌, ◌≡◌, refl, sym, ap, ◌∙◌, ◌⊎◌, inl, inr, Bool, true, false, ◌&&◌, Option, List,
  [], ◌∷◌, arith, ◌==◌, Bool-cases, length, length-zero,
}
use external_squashfs_tools.Paths.{
  Pathname, no_names, leaf_name, branch_name, strcmp_eq, get_component, new_name, add_name,
  add_path, is_match,
}
use external_squashfs_tools.Paths.Parts.{
  parts-cons, parts, pieces, Component, get_component-Component,
}
use external_squashfs_tools.Paths.Reach.{
  strcmp_eq_same, Added, Reaches, Reaches-leaf, Reaches-branch, Reaches-absorbed, Reaches-cut,
  Reaches-deeper, Reaches-new_leaf, Reaches-new_branch,
}

module _ (use_regex : Bool) (regcomp_fails : List ℕ → Bool)
    (regexec fnmatch : (pattern name : List ℕ) → Bool) where
  -- regcomp takes the patterns, or is not called.
  abbrev pub AllCompile : List (List ℕ) → Type 0
  AllCompile [] = Unit
  AllCompile (p ∷ ps) = ((use_regex && regcomp_fails p) ≡ false) × AllCompile ps

  abbrev matched : (pattern name : List ℕ) → Bool
  matched = is_match use_regex regcomp_fails regexec fnmatch

  module _ (deeper : Pathname → Option Pathname) (targname : List ℕ)
      (compiles : (use_regex && regcomp_fails targname) ≡ false) where
    -- The name is the last one.
    add_name_last :
        (paths : Pathname)
        → Added matched
            (targname ∷ [])
            paths
            (add_name use_regex regcomp_fails regexec fnmatch deeper targname true paths)
    unfolding add_name new_name
    add_name_last no_names = record {
      paths' = leaf_name targname no_names;
      ran = rw (compiles, new_name) refl;
      reaches = Reaches-new_leaf matched targname;
    }
    add_name_last (leaf_name name rest) = elim (Bool-cases (strcmp_eq name targname)) [
      | inl e ↦ record {
        paths' = leaf_name name rest;
        ran = rw e refl;
        reaches =
            subst (λ n. Reaches matched (leaf_name name rest) (leaf_name name rest) (n ∷ []))
              (strcmp_eq_same name targname e) (Reaches-absorbed matched name rest []);
      }
      | inr e ↦
          let r = add_name_last rest in
          record {
            paths' = leaf_name name r.paths';
            ran = rw (e, r.ran) refl;
            reaches = Reaches-leaf matched name r.paths' rest (targname ∷ []) r.reaches;
          }
    ]
    add_name_last (branch_name name paths rest) = elim (Bool-cases (strcmp_eq name targname)) [
      | inl e ↦ record {
        paths' = leaf_name name rest;
        ran = rw e refl;
        reaches =
            subst
              (λ n. Reaches matched (leaf_name name rest) (branch_name name paths rest) (n ∷ []))
              (strcmp_eq_same name targname e) (Reaches-cut matched name paths rest);
      }
      | inr e ↦
          let r = add_name_last rest in
          record {
            paths' = branch_name name paths r.paths';
            ran = rw (e, r.ran) refl;
            reaches = Reaches-branch matched name paths r.paths' rest (targname ∷ []) r.reaches;
          }
    ]

    -- More components follow.
    module _ (p : List ℕ) (ps : List (List ℕ))
        (adds : (paths : Pathname) → Added matched (p ∷ ps) paths (deeper paths)) where
      add_name_deeper :
          (paths : Pathname)
          → Added matched
              (targname ∷ (p ∷ ps))
              paths
              (add_name use_regex regcomp_fails regexec fnmatch deeper targname false paths)
      unfolding add_name new_name
      add_name_deeper no_names =
          let d = adds no_names in
          record {
            paths' = branch_name targname d.paths' no_names;
            ran = rw (compiles, new_name, d.ran) refl;
            reaches = Reaches-new_branch matched targname d.paths' p ps d.reaches;
          }
      add_name_deeper (leaf_name name rest) = elim (Bool-cases (strcmp_eq name targname)) [
        | inl e ↦ record {
          paths' = leaf_name name rest;
          ran = rw e refl;
          reaches =
              subst
                (λ n. Reaches matched (leaf_name name rest) (leaf_name name rest) (n ∷ (p ∷ ps)))
                (strcmp_eq_same name targname e) (Reaches-absorbed matched name rest (p ∷ ps));
        }
        | inr e ↦
            let r = add_name_deeper rest in
            record {
              paths' = leaf_name name r.paths';
              ran = rw (e, r.ran) refl;
              reaches = Reaches-leaf matched name r.paths' rest (targname ∷ (p ∷ ps)) r.reaches;
            }
      ]
      add_name_deeper (branch_name name paths rest) = elim (Bool-cases (strcmp_eq name targname)) [
        | inl e ↦
            let d = adds paths in
            record {
              paths' = branch_name name d.paths' rest;
              ran = rw (e, d.ran) refl;
              reaches =
                  subst
                    (λ n.
                      Reaches matched (branch_name name d.paths' rest) (branch_name name paths rest)
                        (n ∷ (p ∷ ps)))
                    (strcmp_eq_same name targname e)
                    (Reaches-deeper matched name d.paths' paths rest (p ∷ ps) d.reaches);
            }
        | inr e ↦
            let r = add_name_deeper rest in
            record {
              paths' = branch_name name paths r.paths';
              ran = rw (e, r.ran) refl;
              reaches =
                  Reaches-branch matched name paths r.paths' rest (targname ∷ (p ∷ ps)) r.reaches;
            }
      ]

  -- What is left is empty, or has parts.
  left_cases :
      (target targname left : List ℕ)
      → Component target targname left
      → (((length left == 0) ≡ true) × (parts target ≡ targname ∷ []))
        ⊎ (((length left == 0) ≡ false)
            × (length left < length target)
            × (parts target ≡ targname ∷ parts left))
  left_cases target targname left c = elim c.more [
    | inl e ↦ inl (let l = ap length e in ground arith, c.taken ∙ ap (λ l. targname ∷ pieces l) e)
    | inr (e, l) ↦ elim (Bool-cases (length left == 0)) [
      | inr n ↦ inr (n, l, c.taken ∙ ap (λ ps. targname ∷ ps) e)
      | inl z ↦
          let none_left = length-zero left (ground arith) in
          absurd (omega (arith, ap length (ap pieces (sym none_left) ∙ e ∙ ap parts none_left)))
    ]
  ]

  add_first :
      (fuel : ℕ) (target targname left : List ℕ) (paths : Pathname)
      → Component target targname left
      → AllCompile (parts target)
      → (length left < length target
          → AllCompile (parts left)
          → (paths' : Pathname)
          → Added matched
              (parts left)
              paths'
              (add_path use_regex regcomp_fails regexec fnmatch fuel paths' left))
      → Added matched (parts target) paths (
          add_name use_regex regcomp_fails regexec fnmatch
            (λ paths'. add_path use_regex regcomp_fails regexec fnmatch fuel paths' left)
            targname
            (length left == 0)
            paths)
  add_first fuel target targname left paths c k ih =
      let deeper : Pathname → Option Pathname =
        λ paths'. add_path use_regex regcomp_fails regexec fnmatch fuel paths' left in
      elim (left_cases target targname left c) [
        | inl (z, e) ↦ rw (z, e) (add_name_last deeper targname (subst AllCompile e k).0 paths)
        | inr (n, l, e) ↦
            let (p, ps, cons) = parts-cons left in
            let compile = subst AllCompile e k in
            let adds = ih l compile.1 in
            rw (n, e, cons)
              (add_name_deeper deeper targname compile.0 p ps
                (λ paths'. subst (λ q. Added matched q paths' (deeper paths')) cons (adds paths'))
                paths)
      ]

  -- Fuel above the target's length is enough.
  pub add_path-Added :
      (fuel : ℕ) (target : List ℕ) (paths : Pathname)
      → length target < fuel
      → AllCompile (parts target)
      → Added matched
          (parts target)
          paths
          (add_path use_regex regcomp_fails regexec fnmatch fuel paths target)
  unfolding add_path
  add_path-Added zero target paths h k = absurd (omega (arith, h))
  add_path-Added (suc fuel) target paths h k =
      add_first fuel target (get_component target).0 (get_component target).1 paths
        (get_component-Component target) k
        (λ l k' paths'.
          add_path-Added fuel (get_component target).1 paths' (omega (arith, h, l)) k')
