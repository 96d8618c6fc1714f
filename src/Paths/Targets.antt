-- ===== src/Paths/Targets.antt =====
-- The tree of several targets.
use external_squashfs_tools.Common.{
  ℕ, ◌+◌, ◌≡◌, refl, ap, ◌∙◌, Bool, false, ◌||◌, Option, none, some, List, [], ◌∷◌, arith, length,
}
use external_squashfs_tools.Paths.{Pathname, no_names, add_to}
use external_squashfs_tools.Paths.Parts.{parts, parts-cons}
use external_squashfs_tools.Paths.Reach.{reach, meets}
use external_squashfs_tools.Paths.Added.{AllCompile, add_path-Added}
use external_squashfs_tools.Paths.Steps.{matched}

module _ (use_regex : Bool) (regcomp_fails : List ℕ → Bool)
    (regexec fnmatch : (pattern name : List ℕ) → Bool) where
  abbrev pub meets_parts : (short : Bool) → (target : List ℕ) → List (List ℕ) → Bool
  meets_parts short target names =
      meets (matched use_regex regcomp_fails regexec fnmatch) short (parts target) names

  -- One of the targets meets the names.
  abbrev pub any_meets : (short : Bool) → (targets : List (List ℕ)) → List (List ℕ) → Bool
  any_meets short [] names = false
  any_meets short (t ∷ ts) names = meets_parts short t names || any_meets short ts names

  abbrev pub TargetsCompile : List (List ℕ) → Type 0
  TargetsCompile [] = Unit
  TargetsCompile (t ∷ ts) =
      AllCompile use_regex regcomp_fails regexec fnmatch (parts t) × TargetsCompile ts

  -- What a tree that may be NULL says.
  abbrev pub reach_from : (short : Bool) → Option Pathname → List (List ℕ) → Bool
  reach_from short none names = false
  reach_from short (some path) names =
      reach (matched use_regex regcomp_fails regexec fnmatch) short path names

  -- A target is added to a tree, or is the first one.
  pub record AddedTo (path : Option Pathname) (target : List ℕ) : Type 0 where
    pub path' : Pathname
    pub ran : add_to use_regex regcomp_fails regexec fnmatch path target ≡ some path'
    pub reaches :
        (short : Bool) (names : List (List ℕ))
        → reach_from short (some path') names
          ≡ (reach_from short path names || meets_parts short target names)

  -- Without names there is nothing but `short`.
  pub short_meets : (short : Bool) (target : List ℕ) → meets_parts short target [] ≡ short
  short_meets short target =
      let (p, ps, e) = parts-cons target in
      ap (λ l. meets (matched use_regex regcomp_fails regexec fnmatch) short l []) e

  no_names_reach :
      (short : Bool) (target : List ℕ) (names : List (List ℕ))
      → (reach_from short (some no_names) names || meets_parts short target names)
        ≡ meets_parts short target names
  no_names_reach short target [] = let e = short_meets short target in rw e (ground arith)
  no_names_reach short target (n ∷ names) = refl

  pub add_to-AddedTo :
      (path : Option Pathname) (target : List ℕ)
      → AllCompile use_regex regcomp_fails regexec fnmatch (parts target)
      → AddedTo path target
  unfolding add_to
  add_to-AddedTo none target h =
      let a =
        add_path-Added use_regex regcomp_fails regexec fnmatch (length target + 1) target no_names
          (omega arith) h in
      record {
        path' = a.paths';
        ran = a.ran;
        reaches = λ short names. a.reaches short names ∙ no_names_reach short target names;
      }
  add_to-AddedTo (some path) target h =
      let a =
        add_path-Added use_regex regcomp_fails regexec fnmatch (length target + 1) target path
          (omega arith) h in
      record { path' = a.paths'; ran = a.ran; reaches = a.reaches }
