-- ===== src/Paths/Files/Read.antt =====
-- The targets of a file are those of the command line.
use external_squashfs_tools.Common.{
  ℕ, ◌+◌, ◌≡◌, refl, ◌∙◌, inl, inr, Bool, Option, some, List, [], ◌∷◌, arith, Option-cases, length,
}
use external_squashfs_tools.Paths.{
  Pathname, ExcludePaths, add_to, add_all, ExcludeInfo, exclude_target, add_excludes,
}
use external_squashfs_tools.Paths.Files.{add_extract, process_extract_files, process_exclude_file}
use external_squashfs_tools.Paths.Files.Lines.{
  FileLine, file_text, file_targets, AreLines, add_each, process_lines-each,
}

module _ (use_regex : Bool) (regcomp_fails : List ℕ → Bool)
    (regexec fnmatch : (pattern name : List ℕ) → Bool) where
  add_each-add_all :
      (targets : List (List ℕ)) (path : Option Pathname)
      → add_each (add_extract use_regex regcomp_fails regexec fnmatch) targets path
        ≡ add_all use_regex regcomp_fails regexec fnmatch path targets
  unfolding add_all add_extract add_each
  add_each-add_all [] path = refl
  add_each-add_all (t ∷ ts) path =
      elim (Option-cases (add_to use_regex regcomp_fails regexec fnmatch path t)) [
        | inl e ↦ rw (e, add_each, add_all, add_extract) refl
        | inr (path', e) ↦ rw (e, add_each, add_all, add_extract) (add_each-add_all ts (some path'))
      ]

  module _ (old_exclude : Bool) (lstat : List ℕ → Option ExcludeInfo)
      (source_path : List (List ℕ)) where
    abbrev exclude_each : (target : List ℕ) → ExcludePaths → Option ExcludePaths
    exclude_each =
        exclude_target use_regex regcomp_fails regexec fnmatch old_exclude lstat source_path

    add_each-add_excludes :
        (targets : List (List ℕ)) (st : ExcludePaths)
        → add_each exclude_each targets st
          ≡ add_excludes use_regex regcomp_fails regexec fnmatch old_exclude lstat source_path
              targets st
    unfolding add_excludes add_each
    add_each-add_excludes [] st = refl
    add_each-add_excludes (t ∷ ts) st = elim (Option-cases (exclude_each t st)) [
      | inl e ↦ rw (e, add_each, add_excludes) refl
      | inr (st', e) ↦ rw (e, add_each, add_excludes) (add_each-add_excludes ts st')
    ]

    -- For a file of lines shorter than 16384 characters and without NULs, each of blanks and then
    -- nothing, a comment, or a target that is not empty with a backslash before it:
    -- process_extract_files and process_exclude_file do with the file what the command line does
    -- with its targets one after the other, with or without -wildcards and -regex, the errors that
    -- exit included.
    pub process_extract_files-add_all :
        (ls : List FileLine) (path : Option Pathname) (st : ExcludePaths)
        → AreLines ls
        → (process_extract_files use_regex regcomp_fails regexec fnmatch (file_text ls) path
            ≡ add_all use_regex regcomp_fails regexec fnmatch path (file_targets ls))
          × (process_exclude_file use_regex regcomp_fails regexec fnmatch old_exclude lstat
                source_path
                (file_text ls)
                st
              ≡ add_excludes use_regex regcomp_fails regexec fnmatch old_exclude lstat source_path
                  (file_targets ls)
                  st)
    unfolding process_extract_files process_exclude_file
    process_extract_files-add_all ls path st h =
        let fuel = length (file_text ls) + 1 in
        (
          process_lines-each (add_extract use_regex regcomp_fails regexec fnmatch) fuel ls path h
                (omega arith)
              ∙ add_each-add_all (file_targets ls) path,
          process_lines-each exclude_each fuel ls st h (omega arith)
              ∙ add_each-add_excludes (file_targets ls) st,
        )
