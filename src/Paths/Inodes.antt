-- ===== src/Paths/Inodes.antt =====
-- The excludes of the command line together, without -wildcards and -regex: device and inode.
use external_squashfs_tools.Common.{
  ℕ, ◌≡◌, Bool, true, false, ◌&&◌, ◌||◌, Option, none, some, List, [], ◌∷◌, ◌++◌, ◌==◌,
  if◌then◌else◌,
}
use external_squashfs_tools.Paths.{
  Pathname, ExcludePaths, ExcludeInfo, is_refused, old_excluded, add_excludes, is_excluded,
}
use external_squashfs_tools.Paths.Excludes.{no_excludes}

-- What `lstat` found, if anything, is this file.
abbrev pub is_file : Option ExcludeInfo → ExcludeInfo → Bool
is_file none buf = false
is_file (some e) buf = (e.st_dev == buf.st_dev) && (e.st_ino == buf.st_ino)

module _ (lstat : List ℕ → Option ExcludeInfo) (source_path : List (List ℕ)) where
  -- The target names this file in one of the sources.
  abbrev pub in_sources : (sources : List (List ℕ)) → (target : List ℕ) → ExcludeInfo → Bool
  in_sources [] target buf = false
  in_sources (source ∷ sources) target buf =
      is_file (lstat (source ++ b'/' ∷ target)) buf || in_sources sources target buf

  -- The target names this file: by itself, or in one of the sources.
  abbrev pub names_file : (target : List ℕ) → ExcludeInfo → Bool
  names_file target buf =
      if is_refused target then is_file (lstat target) buf else in_sources source_path target buf

  abbrev pub any_names : (targets : List (List ℕ)) → ExcludeInfo → Bool
  any_names [] buf = false
  any_names (t ∷ ts) buf = names_file t buf || any_names ts buf

  -- One of the files on the way is named by a target.
  abbrev pub any_file : (targets : List (List ℕ)) → List (List ℕ × ExcludeInfo) → Bool
  any_file targets [] = false
  any_file targets ((name, buf) ∷ files) = any_names targets buf || any_file targets files

  module _ (use_regex : Bool) (regcomp_fails : List ℕ → Bool)
      (regexec fnmatch : (pattern name : List ℕ) → Bool) where
    abbrev adds : (targets : List (List ℕ)) → ExcludePaths → Option ExcludePaths
    adds = add_excludes use_regex regcomp_fails regexec fnmatch true lstat source_path

    record AllEntries (targets : List (List ℕ)) (st : ExcludePaths) : Type 0 where
      after : ExcludePaths
      ran : adds targets st ≡ some after
      told :
          (buf : ExcludeInfo)
          → old_excluded after.exclude_paths buf
            ≡ (old_excluded st.exclude_paths buf || any_names targets buf)

    pub record LeftOut (targets : List (List ℕ)) (files : List (List ℕ × ExcludeInfo))
        : Type 0 where
      pub after : ExcludePaths
      pub added :
          add_excludes use_regex regcomp_fails regexec fnmatch true lstat source_path targets
            no_excludes
          ≡ some after
      pub left_out :
          (paths : List Pathname)
          → is_excluded use_regex regcomp_fails regexec fnmatch true after paths files
            ≡ any_file targets files
