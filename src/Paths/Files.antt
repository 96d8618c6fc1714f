-- ===== src/Paths/Files.antt =====
-- Files of targets: `process_extract_files` of squashfs-tools/unsquashfs.c and
-- `process_exclude_file` of squashfs-tools/mksquashfs.c.
pub mod Lines
pub mod Read
use external_squashfs_tools.Common.{
  ℕ, zero, suc, ◌+◌, ◌-◌, Bool, false, not, ◌&&◌, ◌||◌, Option, none, some, List, [], ◌∷◌, leb,
  ◌==◌, if◌then◌else◌, length,
}
use external_squashfs_tools.Paths.{Pathname, add_to, ExcludePaths, ExcludeInfo, exclude_target}

-- MAX_LINE.
abbrev pub max_line : ℕ
max_line = 16384

abbrev pub newline : ℕ
newline = 10

-- At most `n` characters, up to a newline, and what is left of the file.
unfoldable pub fgets : (n : ℕ) → List ℕ → List ℕ × List ℕ
fgets n [] = ([], [])
fgets n (c ∷ cs) =
    let (line, rest) = fgets (n - 1) cs in
    if n == 0 then ([], c ∷ cs) else if c == newline then (c ∷ [], cs) else (c ∷ line, rest)

-- The characters before a NUL.
unfoldable pub c_string : List ℕ → List ℕ
c_string [] = []
c_string (c ∷ cs) = if c == 0 then [] else c ∷ c_string cs

unfoldable pub ends_line : List ℕ → Bool
ends_line [] = false
ends_line (c ∷ []) = c == newline
ends_line (c ∷ d ∷ cs) = ends_line (d ∷ cs)

-- All but the last character.
unfoldable pub but_last : List ℕ → List ℕ
but_last [] = []
but_last (c ∷ []) = []
but_last (c ∷ d ∷ cs) = c ∷ but_last (d ∷ cs)

abbrev pub isspace : ℕ → Bool
isspace c = (c == b' ') || (leb 9 c && leb c 13)

unfoldable pub skip_spaces : List ℕ → List ℕ
skip_spaces [] = []
skip_spaces (c ∷ cs) = if isspace c then skip_spaces cs else c ∷ cs

-- Behind the white space: no target in a comment or in nothing.
unfoldable pub line_target : List ℕ → Option (List ℕ)
line_target [] = none
line_target (c ∷ []) = if (c == b'#') || (c == b'\\') then none else some (c ∷ [])
line_target (c ∷ d ∷ cs) =
    if c == b'#' then none else if c == b'\\' then some (d ∷ cs) else some (c ∷ (d ∷ cs))

-- Too long, or the target of the line, if any.
unfoldable pub read_line : List ℕ → Option (Option (List ℕ))
read_line buffer =
    let s = c_string buffer in
    if (length s == max_line) && not (ends_line s)
    then none
    else some (line_target (skip_spaces (if ends_line s then but_last s else s)))

module _ {S : Type 0} (add : (target : List ℕ) → S → Option S) where
  -- A line without a target leaves all as it is.
  abbrev pub add_found : Option (List ℕ) → S → Option S
  add_found none st = some st
  add_found (some target) st = add target st

  -- The loop, on fuel: every line takes characters. `none` is an exit.
  unfoldable pub process_lines : (fuel : ℕ) → (file : List ℕ) → S → Option S
  process_lines zero file st = none
  process_lines (suc fuel) [] st = some st
  process_lines (suc fuel) (c ∷ cs) st =
      let (buffer, rest) = fgets max_line (c ∷ cs) in
      elim (read_line buffer) [
        | none ↦ none
        | some found ↦ elim (add_found found st) [
          | none ↦ none
          | some st' ↦ process_lines fuel rest st'
        ]
      ]

module _ (use_regex : Bool) (regcomp_fails : List ℕ → Bool)
    (regexec fnmatch : (pattern name : List ℕ) → Bool) where
  unfoldable pub add_extract : (target : List ℕ) → Option Pathname → Option (Option Pathname)
  add_extract target path = elim (add_to use_regex regcomp_fails regexec fnmatch path target) [
    | none ↦ none
    | some path' ↦ some (some path')
  ]

  unfoldable pub process_extract_files :
      (file : List ℕ) → Option Pathname → Option (Option Pathname)
  process_extract_files file path = process_lines add_extract (length file + 1) file path

  unfoldable pub process_exclude_file :
      (old_exclude : Bool)
      → (lstat : List ℕ → Option ExcludeInfo) → (source_path : List (List ℕ)) → (file : List ℕ)
      → ExcludePaths
      → Option ExcludePaths
  process_exclude_file old_exclude lstat source_path file st =
      process_lines
        (exclude_target use_regex regcomp_fails regexec fnmatch old_exclude lstat source_path)
        (length file + 1) file st
