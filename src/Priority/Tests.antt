-- ===== src/Priority/Tests.antt =====
-- A directory with a file, a hard link to it in a directory that has a priority, and another file.
use external_squashfs_tools.Common.{ℕ, false, List, [], ◌∷◌, arith, ◌==◌, if◌then◌else◌}
use external_squashfs_tools.Priority.{
  SortStat, SortInfo, SortFile, regular, directory, SortEntries, no_entries, entries,
  generate_file_priorities,
}
use external_squashfs_tools.Priority.Once.{InOrder, sort_files_and_write-AllOnce}

abbrev stat : ℕ → SortStat
stat inode = record { st_dev = 1; st_ino = inode }

abbrev linked : (dir_ent : ℕ) → SortFile
linked dir_ent = record { dir_ent = dir_ent; inode = 70 }

abbrev tree : SortEntries
tree = entries (regular false (stat 70) (linked 0)) (
    entries
      (directory false (stat 71) (
        entries (regular false (stat 70) (linked 1))
          (entries (regular false (stat 72) (record { dir_ent = 2; inode = 72 })) no_entries)))
      no_entries)

abbrev infos : ℕ → List SortInfo
infos h = if h == 71 then record { st_dev = 1; st_ino = 71; priority = 40000 } ∷ [] else []

abbrev chains : ℕ → List SortFile
chains = generate_file_priorities infos tree 32768 (stat 2) (λ i. [])

sort_files_and_write-AllOnce_example : InOrder chains 40000
sort_files_and_write-AllOnce_example = sort_files_and_write-AllOnce chains 40000 (omega arith)
