-- ===== src/Paths/Extracted.antt =====
-- The files that unsquashfs extracts.
use external_squashfs_tools.Common.{
  ℕ, ◌≡◌, refl, sym, ◌∙◌, Bool, true, false, ◌||◌, Option, none, some, List, [], ◌∷◌, arith, ◌==◌,
  length,
}
use external_squashfs_tools.Paths.{Pathname, add_all, match_paths, matches, is_extracted, paths_of}
use external_squashfs_tools.Paths.Steps.{Step, any_reach, at_leaf, below, match_paths-Step}
use external_squashfs_tools.Paths.Targets.{any_meets, TargetsCompile, reach_from, add_to-AddedTo}

module _ (use_regex : Bool) (regcomp_fails : List ℕ → Bool)
    (regexec fnmatch : (pattern name : List ℕ) → Bool) (is_dir : Bool) where
  abbrev extracts : Option (List Pathname) → List (List ℕ) → Bool
  extracts = is_extracted use_regex regcomp_fails regexec fnmatch is_dir

  all_extracted : (names : List (List ℕ)) → extracts none names ≡ true
  unfolding is_extracted matches
  all_extracted [] = refl
  all_extracted (n ∷ names) = all_extracted names

  abbrev ways : List Pathname → List (List ℕ) → Bool
  ways = any_reach use_regex regcomp_fails regexec fnmatch is_dir

  is_extracted_name :
      (n : List ℕ) (names : List (List ℕ)) (paths : List Pathname)
      → ((p : Pathname) (ps : List Pathname) → extracts (some (p ∷ ps)) names ≡ ways (p ∷ ps) names)
      → Step use_regex regcomp_fails regexec fnmatch
          (λ short cs. any_reach use_regex regcomp_fails regexec fnmatch short paths (n ∷ cs))
          []
          (match_paths use_regex regcomp_fails regexec fnmatch n paths [])
      → extracts (some paths) (n ∷ names) ≡ ways paths (n ∷ names)
  unfolding is_extracted matches
  is_extracted_name n names paths ih (at_leaf r h) =
      let all = all_extracted names in rw (r, is_extracted, matches, all) (sym (h is_dir names))
  is_extracted_name n names paths ih (below [] r h) =
      rw (r, is_extracted, matches) (sym (h is_dir names))
  is_extracted_name n names paths ih (below (p ∷ ps) r h) =
      let some_left : (length (p ∷ ps) == 0) ≡ false = ground arith in
      rw (r, is_extracted, matches, some_left) (ih p ps ∙ sym (h is_dir names))

  none_left : (path : Pathname) (paths : List Pathname) → is_dir ≡ ways (path ∷ paths) []
  none_left path [] = ground arith
  none_left path (q ∷ qs) = let e = none_left q qs in rw (sym e) (ground arith)

  is_extracted-any_reach :
      (names : List (List ℕ)) (path : Pathname) (paths : List Pathname)
      → extracts (some (path ∷ paths)) names ≡ ways (path ∷ paths) names
  unfolding is_extracted
  is_extracted-any_reach [] path paths = none_left path paths
  is_extracted-any_reach (n ∷ names) path paths =
      is_extracted_name n names (path ∷ paths) (is_extracted-any_reach names)
        (match_paths-Step use_regex regcomp_fails regexec fnmatch n (path ∷ paths) [])

  -- The arguments, and what is scanned then.
  pub record Selection (targets names : List (List ℕ)) : Type 0 where
    pub path : Option Pathname
    pub added : add_all use_regex regcomp_fails regexec fnmatch none targets ≡ some path
    pub extracted :
        extracts (paths_of path) names
        ≡ (length targets == 0)
          || any_meets use_regex regcomp_fails regexec fnmatch is_dir targets names

  abbrev says : Pathname → List (List ℕ) → Bool
  says path names = reach_from use_regex regcomp_fails regexec fnmatch is_dir (some path) names

  record AllAdded (path : Pathname) (targets : List (List ℕ)) : Type 0 where
    path' : Pathname
    ran : add_all use_regex regcomp_fails regexec fnmatch (some path) targets ≡ some (some path')
    reaches :
        (names : List (List ℕ))
        → says path' names ≡ (
            says path names
            || any_meets use_regex regcomp_fails regexec fnmatch is_dir targets names)

  add_all-AllAdded :
      (path : Pathname) (targets : List (List ℕ))
      → TargetsCompile use_regex regcomp_fails regexec fnmatch targets
      → AllAdded path targets
  unfolding add_all
  add_all-AllAdded path [] h = record { path' = path; ran = refl; reaches = λ names. ground arith }
  add_all-AllAdded path (t ∷ ts) h =
      let a = add_to-AddedTo use_regex regcomp_fails regexec fnmatch (some path) t h.0 in
      let r = add_all-AllAdded a.path' ts h.1 in
      record {
        path' = r.path';
        ran = rw (a.ran, add_all) r.ran;
        reaches = λ names.
            let e = r.reaches names in let f = a.reaches is_dir names in rw e (rw f (ground arith));
      }

  -- For targets whose components regcomp takes, or without -regex: add_path builds the tree for
  -- all of them, and going down from the root by `matches`, a directory is scanned exactly when
  -- there are no targets or the components of one of them match the names on the directory's path
  -- in order, as far as both go; another file is extracted exactly when there are no targets or
  -- all components of one of them match, its path being as long or longer. The components are the
  -- pieces between slashes that are not empty.
  pub is_extracted-targets :
      (targets names : List (List ℕ))
      → TargetsCompile use_regex regcomp_fails regexec fnmatch targets
      → Selection targets names
  unfolding add_all
  is_extracted-targets [] names h = record {
    path = none;
    added = refl;
    extracted = all_extracted names;
  }
  is_extracted-targets (t ∷ ts) names h =
      let a = add_to-AddedTo use_regex regcomp_fails regexec fnmatch none t h.0 in
      let r = add_all-AllAdded a.path' ts h.1 in
      let some_target : (length (t ∷ ts) == 0) ≡ false = ground arith in
      record {
        path = some r.path';
        added = rw (a.ran, add_all) r.ran;
        extracted =
            let e = r.reaches names in
            let f = a.reaches is_dir names in
            is_extracted-any_reach names r.path' [] ∙ rw some_target (rw e (rw f (ground arith)));
      }
