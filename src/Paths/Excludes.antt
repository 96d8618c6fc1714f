-- ===== src/Paths/Excludes.antt =====
-- The excludes of the command line together, with -wildcards or -regex.
use mathlib.Core.Path.{subst}
use external_squashfs_tools.Common.{
  ℕ, ◌≡◌, refl, ap, ◌∙◌, inl, inr, Bool, true, false, not, ◌&&◌, ◌||◌, Option, none, some, List, [],
  ◌∷◌, arith, ◌==◌, if◌then◌else◌, Bool-cases, length, drop,
}
use external_squashfs_tools.Paths.{
  Pathname, ExcludePaths, ExcludeInfo, is_match, is_excluded, exclude_target, starts_with,
  sticky_mark, is_refused, add_exclude, add_excludes, set_of, paths_of,
}
use external_squashfs_tools.Paths.Parts.{parts}
use external_squashfs_tools.Paths.Reach.{meets}
use external_squashfs_tools.Paths.Added.{AllCompile}
use external_squashfs_tools.Paths.Targets.{meets_parts, reach_from, add_to-AddedTo, AddedTo}
use external_squashfs_tools.Paths.Excluded.{
  sticky_names, names_of, is_excluded-leaves_out, is_excluded-reach, ways,
}

meets_one :
    (is_match : (pattern name : List ℕ) → Bool) (ps : List (List ℕ)) (n : List ℕ)
    → length ps ≡ 1
    → meets is_match true ps (n ∷ []) ≡ meets is_match false ps (n ∷ [])
meets_one is_match [] n h = refl
meets_one is_match (p ∷ []) n h = refl
meets_one is_match (p ∷ q ∷ ps) n h = absurd (omega arith)

abbrev pub no_excludes : ExcludePaths
no_excludes = record { path = none; stickypath = none; exclude_paths = [] }

module _ (use_regex : Bool) (regcomp_fails : List ℕ → Bool)
    (regexec fnmatch : (pattern name : List ℕ) → Bool) where
  -- One of the names is matched by the target.
  abbrev pub names_one : (target : List ℕ) → (names : List (List ℕ)) → Bool
  names_one target [] = false
  names_one target (n ∷ ns) =
      meets_parts use_regex regcomp_fails regexec fnmatch false target (n ∷ [])
      || names_one target ns

  -- What an exclude says by itself.
  abbrev pub covers : (target : List ℕ) → (names : List (List ℕ)) → Bool
  covers target names =
      if starts_with sticky_mark target
      then names_one (drop 4 target) names
      else meets_parts use_regex regcomp_fails regexec fnmatch false target names

  abbrev pub any_covers : (targets : List (List ℕ)) → (names : List (List ℕ)) → Bool
  any_covers [] names = false
  any_covers (t ∷ ts) names = covers t names || any_covers ts names

  abbrev pattern_of : List ℕ → List ℕ
  pattern_of target = if starts_with sticky_mark target then drop 4 target else target

  -- More than one component behind the mark.
  abbrev pub is_long_sticky : List ℕ → Bool
  is_long_sticky target =
      starts_with sticky_mark target && not (length (parts (drop 4 target)) == 1)

  -- No refused prefix, one component behind a mark, and components that regcomp takes.
  abbrev pub AreAllowed : List (List ℕ) → Type 0
  AreAllowed [] = Unit
  AreAllowed (t ∷ ts) =
      (is_refused t ≡ false)
      × (is_long_sticky t ≡ false)
      × AllCompile use_regex regcomp_fails regexec fnmatch (parts (pattern_of t))
      × AreAllowed ts

  abbrev tells : ExcludePaths → List (List ℕ) → Bool
  tells st names =
      sticky_names use_regex regcomp_fails regexec fnmatch st.stickypath names
      || reach_from use_regex regcomp_fails regexec fnmatch false st.path names

  record AddedExclude (target : List ℕ) (st : ExcludePaths) : Type 0 where
    after : ExcludePaths
    ran : add_exclude use_regex regcomp_fails regexec fnmatch target st ≡ some after
    told : (names : List (List ℕ)) → tells after names ≡ (tells st names || covers target names)

  sticky_names-AddedTo :
      (sticky : Option Pathname) (target : List ℕ)
      (a : AddedTo use_regex regcomp_fails regexec fnmatch sticky target)
      → length (parts target) ≡ 1
      → (names : List (List ℕ))
      → sticky_names use_regex regcomp_fails regexec fnmatch (some a.path') names ≡ (
          sticky_names use_regex regcomp_fails regexec fnmatch sticky names
          || names_one target names)
  sticky_names-AddedTo sticky target a one [] = refl
  sticky_names-AddedTo sticky target a one (n ∷ names) =
      let here =
        a.reaches true (n ∷ [])
        ∙ ap (λ b. reach_from use_regex regcomp_fails regexec fnmatch true sticky (n ∷ []) || b)
            (meets_one (is_match use_regex regcomp_fails regexec fnmatch) (parts target) n one) in
      let rest = sticky_names-AddedTo sticky target a one names in rw (here, rest) (ground arith)

  add_exclude-AddedExclude :
      (target : List ℕ) (st : ExcludePaths)
      → is_refused target ≡ false
      → is_long_sticky target ≡ false
      → AllCompile use_regex regcomp_fails regexec fnmatch (parts (pattern_of target))
      → AddedExclude target st
  unfolding add_exclude
  add_exclude-AddedExclude target st h one c = elim (Bool-cases (starts_with sticky_mark target)) [
    | inl e ↦
        let compile : AllCompile use_regex regcomp_fails regexec fnmatch (parts (drop 4 target)) =
          subst
            (λ (b : Bool).
              AllCompile use_regex regcomp_fails regexec fnmatch
                (parts (if b then drop 4 target else target)))
            e c in
        let single : length (parts (drop 4 target)) ≡ 1 = ground (arith, one, e) in
        let a =
          add_to-AddedTo use_regex regcomp_fails regexec fnmatch st.stickypath (drop 4 target)
            compile in
        record {
          after = record st { stickypath = some a.path' };
          ran = rw (h, add_exclude, e, a.ran) refl;
          told = λ names.
              let k = sticky_names-AddedTo st.stickypath (drop 4 target) a single names in
              rw (e, k) (ground arith);
        }
    | inr e ↦
        let compile : AllCompile use_regex regcomp_fails regexec fnmatch (parts target) =
          subst
            (λ (b : Bool).
              AllCompile use_regex regcomp_fails regexec fnmatch
                (parts (if b then drop 4 target else target)))
            e c in
        let a = add_to-AddedTo use_regex regcomp_fails regexec fnmatch st.path target compile in
        record {
          after = record st { path = some a.path' };
          ran = rw (h, add_exclude, e, a.ran) refl;
          told = λ names. let k = a.reaches false names in rw (e, k) (ground arith);
        }
  ]

  ways-path :
      (path : Option Pathname) (names : List (List ℕ))
      → ways use_regex regcomp_fails regexec fnmatch (set_of (paths_of path)) names
        ≡ reach_from use_regex regcomp_fails regexec fnmatch false path names
  ways-path none names = refl
  ways-path (some path) names = ground arith

  nothing_told : (names : List (List ℕ)) → tells no_excludes names ≡ false
  nothing_told [] = refl
  nothing_told (n ∷ names) = nothing_told names

  module _ (lstat : List ℕ → Option ExcludeInfo) (source_path : List (List ℕ)) where
    abbrev adds : (targets : List (List ℕ)) → ExcludePaths → Option ExcludePaths
    adds = add_excludes use_regex regcomp_fails regexec fnmatch false lstat source_path

    record AllExcludes (targets : List (List ℕ)) (st : ExcludePaths) : Type 0 where
      after : ExcludePaths
      ran : adds targets st ≡ some after
      told :
          (names : List (List ℕ)) → tells after names ≡ (tells st names || any_covers targets names)

    add_excludes-AllExcludes :
        (targets : List (List ℕ)) (st : ExcludePaths) → AreAllowed targets → AllExcludes targets st
    unfolding add_excludes exclude_target
    add_excludes-AllExcludes [] st h = record {
      after = st;
      ran = refl;
      told = λ names. ground arith;
    }
    add_excludes-AllExcludes (t ∷ ts) st h =
        let a = add_exclude-AddedExclude t st h.0 h.1 h.2 in
        let r = add_excludes-AllExcludes ts a.after h.3 in
        record {
          after = r.after;
          ran = rw (a.ran, add_excludes, exclude_target) r.ran;
          told = λ names. let e = r.told names in let f = a.told names in e ∙ rw f (ground arith);
        }

    -- The excludes, and what is left out then.
    pub record LeftOut (targets : List (List ℕ)) (files : List (List ℕ × ExcludeInfo))
        : Type 0 where
      pub after : ExcludePaths
      pub added :
          add_excludes use_regex regcomp_fails regexec fnmatch false lstat source_path targets
            no_excludes
          ≡ some after
      pub left_out :
          is_excluded use_regex regcomp_fails regexec fnmatch false after
            (set_of (paths_of after.path))
            files
          ≡ any_covers targets (names_of use_regex regcomp_fails regexec fnmatch files)

    -- With -wildcards or -regex, for excludes without a prefix /, ./ or ../, with one component
    -- behind a mark "... ", and with components that regcomp takes or without -regex: all are
    -- added, and going down from a source, a file is left out exactly when for one of them, without
    -- the mark, all components match the names on the file's path in order from the source on, the
    -- path being as long or longer, or for one with the mark its component matches one of the names.
    pub is_excluded-targets :
        (targets : List (List ℕ)) (files : List (List ℕ × ExcludeInfo))
        → AreAllowed targets
        → LeftOut targets files
    is_excluded-targets targets files h =
        let names = names_of use_regex regcomp_fails regexec fnmatch files in
        let r = add_excludes-AllExcludes targets no_excludes h in
        let told = r.told names in
        let start = nothing_told names in
        let paths = set_of (paths_of r.after.path) in
        record {
          after = r.after;
          added = r.ran;
          left_out =
              is_excluded-leaves_out use_regex regcomp_fails regexec fnmatch r.after paths files
              ∙ is_excluded-reach use_regex regcomp_fails regexec fnmatch names r.after.stickypath
                  paths
              ∙ ap
                  (λ b.
                    sticky_names use_regex regcomp_fails regexec fnmatch r.after.stickypath names
                    || b)
                  (ways-path r.after.path names)
              ∙ told
              ∙ ap (λ b. b || any_covers targets names) start;
        }
