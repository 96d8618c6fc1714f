-- ===== src/Priority.antt =====
-- The order in which files are written: `add_priority_list`, `get_priority`,
-- `generate_file_priorities` and `sort_files_and_write` of squashfs-tools/sort.c. A priority
-- stands for itself plus 32768, the index in `priority_list`.
pub mod Chains
pub mod Once
mod Tests
use external_squashfs_tools.Common.{
  ℕ, zero, suc, ◌%◌, ◌^◌, Bool, true, false, ◌&&◌, ◌||◌, List, [], ◌∷◌, ◌==◌, if◌then◌else◌,
}

pub record SortStat : Type 0 where
  pub st_dev : ℕ
  pub st_ino : ℕ

pub record SortInfo : Type 0 where
  pub st_dev : ℕ
  pub st_ino : ℕ
  pub priority : ℕ

-- The entries of a directory that are not `root_entry`: files, directories and others. A file is
-- a `dir_ent` and the number of its `inode_info`.
pub record SortFile : Type 0 where
  pub dir_ent : ℕ
  pub inode : ℕ

mutual
  pub data SortEntry : Type 0 where
    regular : (root_entry : Bool) → SortStat → SortFile → SortEntry
    directory : (root_entry : Bool) → SortStat → SortEntries → SortEntry
    other_entry : SortEntry

  pub data SortEntries : Type 0 where
    no_entries : SortEntries
    entries : SortEntry → SortEntries → SortEntries

-- The chain of `sort_info_list` at the inode's hash.
abbrev pub find_info : SortStat → ℕ → List SortInfo → ℕ
find_info buf priority [] = priority
find_info buf priority (s ∷ chain) =
    if (s.st_dev == buf.st_dev) && (s.st_ino == buf.st_ino)
    then s.priority
    else find_info buf priority chain

pub get_priority : (ℕ → List SortInfo) → SortStat → ℕ → ℕ
get_priority sort_info_list buf priority =
    find_info buf priority (sort_info_list (buf.st_ino % 2 ^ 16))

abbrev pub add_priority_list : SortFile → ℕ → (ℕ → List SortFile) → ℕ → List SortFile
add_priority_list dir priority priority_list i =
    if i == priority then dir ∷ priority_list i else priority_list i

module _ (sort_info_list : ℕ → List SortInfo) where
  mutual
    pub place_entry : SortEntry → ℕ → (ℕ → List SortFile) → ℕ → List SortFile
    place_entry (regular true buf f) priority l = l
    place_entry (regular false buf f) priority l =
        add_priority_list f (get_priority sort_info_list buf priority) l
    place_entry (directory true buf es) priority l = l
    place_entry (directory false buf es) priority l =
        place_entries es (get_priority sort_info_list buf priority) l
    place_entry other_entry priority l = l

    pub place_entries : SortEntries → ℕ → (ℕ → List SortFile) → ℕ → List SortFile
    place_entries no_entries priority l = l
    place_entries (entries e es) priority l = place_entries es priority (place_entry e priority l)

  unfoldable pub generate_file_priorities :
      SortEntries → ℕ → SortStat → (ℕ → List SortFile) → ℕ → List SortFile
  generate_file_priorities es priority buf l =
      place_entries es (get_priority sort_info_list buf priority) l

-- What is written: `write_file` is called for a file whose inode has no number yet.
abbrev pub is_written : ℕ → List SortFile → Bool
is_written inode [] = false
is_written inode (f ∷ fs) = (f.inode == inode) || is_written inode fs

-- The files written so far, the last one first.
pub write_chain : List SortFile → List SortFile → List SortFile
write_chain [] written = written
write_chain (f ∷ chain) written =
    write_chain chain (if is_written f.inode written then written else f ∷ written)

pub write_down : (i : ℕ) → (ℕ → List SortFile) → List SortFile → List SortFile
write_down zero l written = written
write_down (suc i) l written = write_down i l (write_chain (l i) written)

unfoldable pub sort_files_and_write : (ℕ → List SortFile) → List SortFile
sort_files_and_write l = write_down (2 ^ 16) l []
