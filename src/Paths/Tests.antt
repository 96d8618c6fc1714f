-- ===== src/Paths/Tests.antt =====
-- Targets and excludes with a matcher that knows the pattern of one star.
use external_squashfs_tools.Common.{
  ℕ, ◌≡◌, Bool, true, false, ◌||◌, Option, none, some, List, [], ◌∷◌, arith, ◌==◌, if◌then◌else◌,
  length,
}
use external_squashfs_tools.Paths.{strcmp_eq, is_refused, ExcludeInfo}
use external_squashfs_tools.Paths.Inodes
use external_squashfs_tools.Paths.{add_all, add_excludes}
use external_squashfs_tools.Paths.Excludes.{no_excludes}
use external_squashfs_tools.Paths.Files.{process_extract_files, process_exclude_file}
use external_squashfs_tools.Paths.Files.Lines.{
  FileLine, blank_line, comment_line, target_line, file_text, file_targets, AreLines,
}
use external_squashfs_tools.Paths.Files.Read.{process_extract_files-add_all}
use external_squashfs_tools.Paths.Targets.{TargetsCompile}
use external_squashfs_tools.Paths.Extracted.{Selection, is_extracted-targets}
use external_squashfs_tools.Paths.Excludes.{AreAllowed, LeftOut, is_excluded-targets}

abbrev star : (pattern name : List ℕ) → Bool
star pattern name = strcmp_eq pattern (b'*' ∷ []) || strcmp_eq pattern name

abbrev refuses_empty : List ℕ → Bool
refuses_empty pattern = length pattern == 0

-- a/*/c, /a//b/ and a/b.
abbrev targets : List (List ℕ)
targets =
    (b'a' ∷ b'/' ∷ b'*' ∷ b'/' ∷ b'c' ∷ [])
    ∷ (b'/' ∷ b'a' ∷ b'/' ∷ b'/' ∷ b'b' ∷ b'/' ∷ [])
    ∷ (b'a' ∷ b'/' ∷ b'b' ∷ [])
    ∷ []

-- A file system of one file, found by two names.
abbrev some_stat : ExcludeInfo
some_stat = record { st_dev = 8; st_ino = 70 }

abbrev some_lstat : List ℕ → Option ExcludeInfo
some_lstat filename =
    if strcmp_eq filename (b's' ∷ b'/' ∷ b'a' ∷ []) || strcmp_eq filename (b'/' ∷ b'x' ∷ [])
    then some some_stat
    else none

abbrev sources : List (List ℕ)
sources = (b't' ∷ []) ∷ (b's' ∷ []) ∷ []

abbrev files : List (List ℕ × ExcludeInfo)
files =
    ((b'a' ∷ []), some_stat)
    ∷ ((b'd' ∷ []), record some_stat { st_ino = 71 })
    ∷ ((b'c' ∷ []), record some_stat { st_ino = 72 })
    ∷ []

-- a/b and ... core.
abbrev excludes : List (List ℕ)
excludes =
    (b'a' ∷ b'/' ∷ b'b' ∷ []) ∷ (b'.' ∷ b'.' ∷ b'.' ∷ b' ' ∷ b'c' ∷ b'o' ∷ b'r' ∷ b'e' ∷ []) ∷ []

abbrev names : List (List ℕ)
names = (b'a' ∷ []) ∷ (b'd' ∷ []) ∷ (b'c' ∷ []) ∷ (b'x' ∷ []) ∷ []

targets-TargetsCompile : TargetsCompile true refuses_empty star star targets
targets-TargetsCompile = ground arith

excludes-AreAllowed : AreAllowed true refuses_empty star star excludes
unfolding is_refused
excludes-AreAllowed = ground arith

is_extracted-targets_example : Selection true refuses_empty star star false targets names
is_extracted-targets_example =
    is_extracted-targets true refuses_empty star star false targets names targets-TargetsCompile

is_excluded-targets_example : LeftOut true refuses_empty star star some_lstat sources excludes files
is_excluded-targets_example =
    is_excluded-targets true refuses_empty star star some_lstat sources excludes files
      excludes-AreAllowed

-- A comment, a target with a blank in front, an empty line and another target.
abbrev lines : List FileLine
lines =
    comment_line 2 (b'h' ∷ b'i' ∷ [])
    ∷ target_line 1 (b' ' ∷ b'a' ∷ [])
    ∷ blank_line 3
    ∷ target_line 0 (b'#' ∷ b'b' ∷ [])
    ∷ []

lines-AreLines : AreLines lines
lines-AreLines = ground arith

process_extract_files-add_all_example :
    (process_extract_files true refuses_empty star star (file_text lines) none
      ≡ add_all true refuses_empty star star none (file_targets lines))
    × (process_exclude_file true refuses_empty star star true some_lstat sources
          (file_text lines)
          no_excludes
        ≡ add_excludes true refuses_empty star star true some_lstat sources
            (file_targets lines)
            no_excludes)
process_extract_files-add_all_example =
    process_extract_files-add_all true refuses_empty star star true some_lstat sources lines none
      no_excludes lines-AreLines
