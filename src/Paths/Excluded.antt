-- ===== src/Paths/Excluded.antt =====
-- The files that mksquashfs leaves out.
use mathlib.Core.Path.{subst}
use mathlib.Core.Option.{none-ne-some, some-injective}
use external_squashfs_tools.Common.{
  ℕ, ◌≡◌, refl, sym, ap, ◌∙◌, inl, inr, Bool, true, false, ◌||◌, Option, none, some, List, [], ◌∷◌,
  ◌++◌, arith, if◌then◌else◌, Bool-cases, Option-cases,
}
use external_squashfs_tools.Paths.{
  Pathname, no_names, leaf_name, branch_name, match_names, match_paths, excluded_match,
  excluded_paths, excluded, is_excluded, ExcludeInfo, ExcludePaths,
}
use external_squashfs_tools.Paths.Reach.{reach}
use external_squashfs_tools.Paths.Steps.{Step, matched, any_reach, at_leaf, below, match_paths-Step}
use external_squashfs_tools.Paths.Targets.{reach_from}

module _ (use_regex : Bool) (regcomp_fails : List ℕ → Bool)
    (regexec fnmatch : (pattern name : List ℕ) → Bool) where
  -- `excluded_match` with a set to fill is the loop of `matches`.
  abbrev SameNames : Option (List Pathname) → Bool × Option (List Pathname) → Type 0
  SameNames none r = r.0 ≡ true
  SameNames (some new) r = r ≡ (false, some new)

  excluded_match-match_names :
      (name : List ℕ) (path : Pathname) (new : List Pathname)
      → SameNames
          (match_names use_regex regcomp_fails regexec fnmatch name path new)
          (excluded_match use_regex regcomp_fails regexec fnmatch name path (some new))
  unfolding excluded_match match_names
  excluded_match-match_names name no_names new = refl
  excluded_match-match_names name (leaf_name pattern rest) new =
      elim (Bool-cases (matched use_regex regcomp_fails regexec fnmatch pattern name)) [
        | inl e ↦ rw e refl
        | inr e ↦ rw e (excluded_match-match_names name rest new)
      ]
  excluded_match-match_names name (branch_name pattern paths rest) new =
      excluded_match-match_names name rest (
        if matched use_regex regcomp_fails regexec fnmatch pattern name
        then new ++ (paths ∷ [])
        else new)

  -- A sticky exclude is a match of a first component.
  sticky_match :
      (name : List ℕ) (path : Pathname)
      → (excluded_match use_regex regcomp_fails regexec fnmatch name path none).0
        ≡ reach (matched use_regex regcomp_fails regexec fnmatch) true path (name ∷ [])
  unfolding excluded_match
  sticky_match name no_names = refl
  sticky_match name (leaf_name pattern rest) =
      let e = sticky_match name rest in
      elim (Bool-cases (matched use_regex regcomp_fails regexec fnmatch pattern name)) [
        | inl m ↦ rw m refl
        | inr m ↦ rw m e
      ]
  sticky_match name (branch_name pattern paths rest) =
      let e = sticky_match name rest in
      elim (Bool-cases (matched use_regex regcomp_fails regexec fnmatch pattern name)) [
        | inl m ↦ rw m refl
        | inr m ↦ rw m e
      ]

  abbrev SamePaths : Option (List Pathname) → Bool × List Pathname → Type 0
  SamePaths none r = r ≡ (true, [])
  SamePaths (some new) r = r ≡ (false, new)

  excluded_paths-match_paths :
      (name : List ℕ) (paths new : List Pathname)
      → SamePaths
          (match_paths use_regex regcomp_fails regexec fnmatch name paths new)
          (excluded_paths use_regex regcomp_fails regexec fnmatch name paths new)
  unfolding match_paths excluded_paths
  excluded_paths-match_paths name [] new = refl
  excluded_paths-match_paths name (path ∷ paths) new =
      let same = excluded_match-match_names name path new in
      elim (Option-cases (match_names use_regex regcomp_fails regexec fnmatch name path new)) [
        | inl e ↦
            let k =
              subst
                (λ m.
                  SameNames m
                    (excluded_match use_regex regcomp_fails regexec fnmatch name path (some new)))
                e same in
            rw (e, match_paths, excluded_paths, k) refl
        | inr (new', e) ↦
            let k =
              subst
                (λ m.
                  SameNames m
                    (excluded_match use_regex regcomp_fails regexec fnmatch name path (some new)))
                e same in
            rw (e, match_paths, excluded_paths, k) (excluded_paths-match_paths name paths new')
      ]

  -- One of the names is a match of a sticky exclude.
  abbrev pub sticky_names : Option Pathname → List (List ℕ) → Bool
  sticky_names sticky [] = false
  sticky_names sticky (n ∷ ns) =
      reach_from use_regex regcomp_fails regexec fnmatch true sticky (n ∷ [])
      || sticky_names sticky ns

  abbrev pub ways : List Pathname → List (List ℕ) → Bool
  ways = any_reach use_regex regcomp_fails regexec fnmatch false

  -- The way down by `excluded` alone.
  unfoldable pub leaves_out : Option Pathname → List Pathname → List (List ℕ) → Bool
  leaves_out sticky paths [] = false
  leaves_out sticky paths (name ∷ names) =
      let (res, new) = excluded use_regex regcomp_fails regexec fnmatch sticky name paths in
      let deeper = leaves_out sticky new names in res || deeper

  pub names_of : List (List ℕ × ExcludeInfo) → List (List ℕ)
  names_of [] = []
  names_of ((name, buf) ∷ files) = name ∷ names_of files

  pub is_excluded-leaves_out :
      (st : ExcludePaths) (paths : List Pathname) (files : List (List ℕ × ExcludeInfo))
      → is_excluded use_regex regcomp_fails regexec fnmatch false st paths files
        ≡ leaves_out st.stickypath paths (names_of files)
  unfolding is_excluded leaves_out names_of
  is_excluded-leaves_out st paths [] = refl
  is_excluded-leaves_out st paths ((name, buf) ∷ files) =
      ap (λ b. (excluded use_regex regcomp_fails regexec fnmatch st.stickypath name paths).0 || b)
        (is_excluded-leaves_out st
          (excluded use_regex regcomp_fails regexec fnmatch st.stickypath name paths).1 files)

  -- `excluded`, in terms of the two trees.
  excluded-sticky :
      (sticky : Option Pathname) (name : List ℕ) (paths : List Pathname)
      → excluded use_regex regcomp_fails regexec fnmatch sticky name paths ≡ (
          if reach_from use_regex regcomp_fails regexec fnmatch true sticky (name ∷ [])
          then (true, [])
          else excluded_paths use_regex regcomp_fails regexec fnmatch name paths [])
  unfolding excluded
  excluded-sticky none name paths = refl
  excluded-sticky (some path) name paths = rw (sticky_match name path) refl

  excluded_sticky_match :
      (sticky : Option Pathname) (name : List ℕ) (paths : List Pathname)
      → reach_from use_regex regcomp_fails regexec fnmatch true sticky (name ∷ []) ≡ true
      → excluded use_regex regcomp_fails regexec fnmatch sticky name paths ≡ (true, [])
  excluded_sticky_match sticky name paths b = excluded-sticky sticky name paths ∙ rw b refl

  excluded_no_sticky :
      (sticky : Option Pathname) (name : List ℕ) (paths : List Pathname)
      → reach_from use_regex regcomp_fails regexec fnmatch true sticky (name ∷ []) ≡ false
      → excluded use_regex regcomp_fails regexec fnmatch sticky name paths
        ≡ excluded_paths use_regex regcomp_fails regexec fnmatch name paths []
  excluded_no_sticky sticky name paths b = excluded-sticky sticky name paths ∙ rw b refl

  is_excluded_further :
      (sticky : Option Pathname) (n : List ℕ) (names : List (List ℕ)) (paths : List Pathname)
      → ((ps : List Pathname)
          → leaves_out sticky ps names ≡ (sticky_names sticky names || ways ps names))
      → (new : Option (List Pathname))
      → excluded use_regex regcomp_fails regexec fnmatch sticky n paths
        ≡ excluded_paths use_regex regcomp_fails regexec fnmatch n paths []
      → SamePaths new (excluded_paths use_regex regcomp_fails regexec fnmatch n paths [])
      → Step use_regex regcomp_fails regexec fnmatch
          (λ short cs. any_reach use_regex regcomp_fails regexec fnmatch short paths (n ∷ cs))
          []
          new
      → leaves_out sticky paths (n ∷ names) ≡ (sticky_names sticky names || ways paths (n ∷ names))
  unfolding leaves_out
  is_excluded_further sticky n names paths ih none x same (at_leaf r h) =
      let k = h false names in let y = x ∙ same in rw (y, k) (ground arith)
  is_excluded_further sticky n names paths ih (some new) x same (at_leaf r h) =
      absurd (none-ne-some new (sym r))
  is_excluded_further sticky n names paths ih none x same (below extra r h) =
      absurd (none-ne-some extra r)
  is_excluded_further sticky n names paths ih (some new) x same (below extra r h) =
      let k = h false names in
      let y = x ∙ same in
      let e = some-injective new extra r in
      rw (y, k) (ih new ∙ ap (λ l. sticky_names sticky names || ways l names) e)

  is_excluded_name :
      (sticky : Option Pathname) (n : List ℕ) (names : List (List ℕ)) (paths : List Pathname)
      → ((ps : List Pathname)
          → leaves_out sticky ps names ≡ (sticky_names sticky names || ways ps names))
      → (new : Option (List Pathname))
      → SamePaths new (excluded_paths use_regex regcomp_fails regexec fnmatch n paths [])
      → Step use_regex regcomp_fails regexec fnmatch
          (λ short cs. any_reach use_regex regcomp_fails regexec fnmatch short paths (n ∷ cs))
          []
          new
      → leaves_out sticky paths (n ∷ names)
        ≡ (sticky_names sticky (n ∷ names) || ways paths (n ∷ names))
  unfolding leaves_out
  is_excluded_name sticky n names paths ih new same step =
      elim (Bool-cases (reach_from use_regex regcomp_fails regexec fnmatch true sticky (n ∷ []))) [
        | inl b ↦ rw (excluded_sticky_match sticky n paths b, b) refl
        | inr b ↦
            let x = excluded_no_sticky sticky n paths b in
            rw b (is_excluded_further sticky n names paths ih new x same step)
      ]

  pub is_excluded-reach :
      (names : List (List ℕ)) (sticky : Option Pathname) (paths : List Pathname)
      → leaves_out sticky paths names ≡ (sticky_names sticky names || ways paths names)
  unfolding leaves_out
  is_excluded-reach [] sticky [] = refl
  is_excluded-reach [] sticky (p ∷ ps) = let e = is_excluded-reach [] sticky ps in rw (sym e) refl
  is_excluded-reach (n ∷ names) sticky paths =
      is_excluded_name sticky n names paths (is_excluded-reach names sticky)
        (match_paths use_regex regcomp_fails regexec fnmatch n paths [])
        (excluded_paths-match_paths n paths [])
        (match_paths-Step use_regex regcomp_fails regexec fnmatch n paths [])
