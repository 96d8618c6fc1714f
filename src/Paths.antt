-- ===== src/Paths.antt =====
-- Which files are extracted or excluded by their paths: `get_component`, `add_path`, `matches` and
-- the walk of `dir_scan` of squashfs-tools/unsquashfs.c, and `add_exclude`, `excluded_match`,
-- `excluded`, `old_add_exclude` and `old_excluded` with the walk of `dir_scan1` of
-- squashfs-tools/mksquashfs.c.
pub mod Parts
pub mod Reach
pub mod Added
pub mod Steps
pub mod Targets
pub mod Extracted
pub mod Excluded
pub mod Excludes
pub mod Inodes
pub mod Files
mod Tests
use external_squashfs_tools.Common.{
  ℕ, zero, suc, ◌+◌, Bool, true, false, not, ◌&&◌, ◌||◌, Option, none, some, List, [], ◌∷◌, ◌++◌,
  ◌==◌, if◌then◌else◌, length, drop,
}

-- `struct pathname`, an array of `struct path_entry`: an entry is a leaf when its `paths` is NULL.
pub data Pathname : Type 0 where
  no_names : Pathname
  leaf_name : (name : List ℕ) → (rest : Pathname) → Pathname
  branch_name : (name : List ℕ) → (paths rest : Pathname) → Pathname

abbrev pub strcmp_eq : List ℕ → List ℕ → Bool
strcmp_eq [] [] = true
strcmp_eq [] (c ∷ cs) = false
strcmp_eq (b ∷ bs) [] = false
strcmp_eq (b ∷ bs) (c ∷ cs) = (b == c) && strcmp_eq bs cs

abbrev pub skip_slashes : List ℕ → List ℕ
skip_slashes [] = []
skip_slashes (c ∷ cs) = if c == b'/' then skip_slashes cs else c ∷ cs

-- Up to a slash or the end, and from there on.
abbrev pub until_slash : List ℕ → List ℕ × List ℕ
until_slash [] = ([], [])
until_slash (c ∷ cs) =
    if c == b'/' then ([], c ∷ cs) else (c ∷ (until_slash cs).0, (until_slash cs).1)

-- `targname`, and the target that is left.
unfoldable pub get_component : List ℕ → List ℕ × List ℕ
get_component target =
    let (targname, left) = until_slash (skip_slashes target) in (targname, skip_slashes left)

-- `strncmp` with the length of the first text is 0.
abbrev pub starts_with : List ℕ → List ℕ → Bool
starts_with [] cs = true
starts_with (b ∷ bs) [] = false
starts_with (b ∷ bs) (c ∷ cs) = (b == c) && starts_with bs cs

abbrev pub sticky_mark : List ℕ
sticky_mark = b'.' ∷ b'.' ∷ b'.' ∷ b' ' ∷ []

-- Prefixes /, ./ and ../ are refused by `add_exclude`.
unfoldable pub is_refused : (target : List ℕ) → Bool
is_refused target =
    starts_with (b'/' ∷ []) target
    || (starts_with (b'.' ∷ b'/' ∷ []) target || starts_with (b'.' ∷ b'.' ∷ b'/' ∷ []) target)

-- `struct exclude_info`, and what is compared with it of a `struct stat`.
pub record ExcludeInfo : Type 0 where
  pub st_dev : ℕ
  pub st_ino : ℕ

-- `path`, `stickypath` and `exclude_paths` of mksquashfs.
pub record ExcludePaths : Type 0 where
  pub path : Option Pathname
  pub stickypath : Option Pathname
  pub exclude_paths : List ExcludeInfo

pub old_excluded : (exclude_paths : List ExcludeInfo) → (buf : ExcludeInfo) → Bool
old_excluded [] buf = false
old_excluded (e ∷ es) buf =
    if (e.st_dev == buf.st_dev) && (e.st_ino == buf.st_ino) then true else old_excluded es buf

-- ADD_ENTRY, unless `lstat` failed.
pub add_entry : (buf : Option ExcludeInfo) → ExcludePaths → ExcludePaths
add_entry none st = st
add_entry (some buf) st = record st { exclude_paths = st.exclude_paths ++ (buf ∷ []) }

-- `lstat` of a file's name; the sources are directories or files.
module _ (lstat : (filename : List ℕ) → Option ExcludeInfo) where
  pub add_in_sources : (source_path : List (List ℕ)) → (path : List ℕ) → ExcludePaths → ExcludePaths
  add_in_sources [] path st = st
  add_in_sources (source ∷ sources) path st =
      add_in_sources sources path (add_entry (lstat (source ++ b'/' ∷ path)) st)

  -- It always returns TRUE. A path with one of the three prefixes is taken as it stands.
  pub old_add_exclude :
      (source_path : List (List ℕ)) → (path : List ℕ) → ExcludePaths → ExcludePaths
  old_add_exclude source_path path st =
      if is_refused path then add_entry (lstat path) st else add_in_sources source_path path st

-- A set that is NULL is empty.
abbrev pub set_of : Option (List Pathname) → List Pathname
set_of none = []
set_of (some new) = new

-- `regcomp` refuses a pattern; `regexec` and `fnmatch`, with the flags of the calls, match a name.
module _ (use_regex : Bool) (regcomp_fails : List ℕ → Bool)
    (regexec fnmatch : (pattern name : List ℕ) → Bool) where
  abbrev pub is_match : (pattern name : List ℕ) → Bool
  is_match pattern name = if use_regex then regexec pattern name else fnmatch pattern name

  -- An entry of a new name. `deeper` is the call for the components that are left, `none` an exit.
  unfoldable pub new_name :
      (deeper : Pathname → Option Pathname) → (targname : List ℕ) → (leaf : Bool) → Option Pathname
  new_name deeper targname leaf =
      if use_regex && regcomp_fails targname
      then none
      else if leaf
      then some (leaf_name targname no_names)
      else elim (deeper no_names) [
        | none ↦ none
        | some paths ↦ some (branch_name targname paths no_names)
      ]

  -- The search for the name, and what is done where it ends.
  unfoldable pub add_name :
      (deeper : Pathname → Option Pathname)
      → (targname : List ℕ) → (leaf : Bool) → Pathname
      → Option Pathname
  add_name deeper targname leaf no_names = new_name deeper targname leaf
  add_name deeper targname leaf (leaf_name name rest) =
      let later = add_name deeper targname leaf rest in
      if strcmp_eq name targname
      then some (leaf_name name rest)
      else elim later [ none ↦ none | some rest' ↦ some (leaf_name name rest') ]
  add_name deeper targname leaf (branch_name name paths rest) =
      let later = add_name deeper targname leaf rest in
      if strcmp_eq name targname
      then if leaf
        then some (leaf_name name rest)
        else elim (deeper paths) [ none ↦ none | some paths' ↦ some (branch_name name paths' rest) ]
      else elim later [ none ↦ none | some rest' ↦ some (branch_name name paths rest') ]

  -- On fuel: each component takes a character of the target, but for an empty target's.
  unfoldable pub add_path : (fuel : ℕ) → Pathname → (target : List ℕ) → Option Pathname
  add_path zero paths target = none
  add_path (suc fuel) paths target =
      let (targname, left) = get_component target in
      add_name (λ paths'. add_path fuel paths' left) targname (length left == 0) paths

  -- NULL is `none`.
  unfoldable pub add_to : Option Pathname → (target : List ℕ) → Option Pathname
  add_to none target = add_path (length target + 1) no_names target
  add_to (some paths) target = add_path (length target + 1) paths target

  -- The inner loop of `matches`: `none` is the jump to `empty_set`.
  unfoldable pub match_names :
      (name : List ℕ) → Pathname → (new : List Pathname) → Option (List Pathname)
  match_names name no_names new = some new
  match_names name (leaf_name pattern rest) new =
      let later = match_names name rest new in if is_match pattern name then none else later
  match_names name (branch_name pattern paths rest) new =
      match_names name rest (if is_match pattern name then new ++ (paths ∷ []) else new)

  unfoldable pub match_paths :
      (name : List ℕ) → List Pathname → (new : List Pathname) → Option (List Pathname)
  match_paths name [] new = some new
  match_paths name (path ∷ paths) new = elim (match_names name path new) [
    | none ↦ none
    | some new' ↦ match_paths name paths new'
  ]

  -- The result, and the new set of paths.
  unfoldable pub matches : Option (List Pathname) → (name : List ℕ) → Bool × Option (List Pathname)
  matches none name = (true, none)
  matches (some paths) name = elim (match_paths name paths []) [
    | none ↦ (true, none)
    | some new ↦ if length new == 0 then (false, none) else (true, some new)
  ]

  -- The way of `dir_scan` down to a file: `continue` where `matches` fails. A directory is then
  -- scanned itself, another file extracted when `new` is NULL.
  unfoldable pub is_extracted :
      (is_dir : Bool) → Option (List Pathname) → (names : List (List ℕ)) → Bool
  is_extracted is_dir none [] = true
  is_extracted is_dir (some new) [] = is_dir
  is_extracted is_dir paths (name ∷ names) =
      let (res, new) = matches paths name in
      let deeper = is_extracted is_dir new names in res && deeper

  -- The loop of `excluded_match`. `new` of `none` is a NULL pointer.
  unfoldable pub excluded_match :
      (name : List ℕ) → Pathname → (new : Option (List Pathname)) → Bool × Option (List Pathname)
  excluded_match name no_names new = (false, new)
  excluded_match name (leaf_name pattern rest) new =
      let later = excluded_match name rest new in
      if is_match pattern name then (true, new) else later
  excluded_match name (branch_name pattern paths rest) none =
      let later = excluded_match name rest none in
      if is_match pattern name then (true, none) else later
  excluded_match name (branch_name pattern paths rest) (some new) =
      excluded_match name rest (some (if is_match pattern name then new ++ (paths ∷ []) else new))

  unfoldable pub excluded_paths :
      (name : List ℕ) → List Pathname → (new : List Pathname) → Bool × List Pathname
  excluded_paths name [] new = (false, new)
  excluded_paths name (path ∷ paths) new =
      let (res, new') = excluded_match name path (some new) in
      let later = excluded_paths name paths (set_of new') in if res then (true, []) else later

  unfoldable pub excluded :
      (stickypath : Option Pathname) → (name : List ℕ) → List Pathname → Bool × List Pathname
  excluded none name paths = excluded_paths name paths []
  excluded (some stickypath) name paths =
      if (excluded_match name stickypath none).0 then (true, []) else excluded_paths name paths []

  -- The way of `dir_scan1` down to a file, by the name and the stat buffer of each file on it.
  unfoldable pub is_excluded :
      (old_exclude : Bool)
      → ExcludePaths
      → (paths : List Pathname) → List (List ℕ × ExcludeInfo)
      → Bool
  is_excluded old_exclude st paths [] = false
  is_excluded old_exclude st paths ((name, buf) ∷ files) =
      let (res, new) = excluded st.stickypath name paths in
      let here = (old_exclude && old_excluded st.exclude_paths buf) || (not old_exclude && res) in
      let deeper = is_excluded old_exclude st (if old_exclude then [] else new) files in
      here || deeper

  -- `path` of unsquashfs's main, over the arguments.
  unfoldable pub add_all : Option Pathname → (targets : List (List ℕ)) → Option (Option Pathname)
  add_all path [] = some path
  add_all path (target ∷ targets) = elim (add_to path target) [
    | none ↦ none
    | some path' ↦ add_all (some path') targets
  ]

  -- `none` is the error for a prefix that is not supported, or regcomp's.
  unfoldable pub add_exclude : (target : List ℕ) → ExcludePaths → Option ExcludePaths
  add_exclude target st =
      if is_refused target
      then none
      else if starts_with sticky_mark target
      then elim (add_to st.stickypath (drop 4 target)) [
        | none ↦ none
        | some paths ↦ some (record st { stickypath = some paths })
      ]
      else elim (add_to st.path target) [
        | none ↦ none
        | some paths ↦ some (record st { path = some paths })
      ]

  -- `old_exclude` is the default, -wildcards and -regex clear it.
  module _ (old_exclude : Bool) (lstat : (filename : List ℕ) → Option ExcludeInfo)
      (source_path : List (List ℕ)) where
    unfoldable pub exclude_target : (target : List ℕ) → ExcludePaths → Option ExcludePaths
    exclude_target target st =
        if old_exclude
        then some (old_add_exclude lstat source_path target st)
        else add_exclude target st

    -- The excludes of the command line in turn.
    unfoldable pub add_excludes : (targets : List (List ℕ)) → ExcludePaths → Option ExcludePaths
    add_excludes [] st = some st
    add_excludes (target ∷ targets) st = elim (exclude_target target st) [
      | none ↦ none
      | some st' ↦ add_excludes targets st'
    ]

-- `if(path) paths = add_subdir(paths, path)`, in both programs.
abbrev pub paths_of : Option Pathname → Option (List Pathname)
paths_of none = none
paths_of (some path) = some (path ∷ [])
