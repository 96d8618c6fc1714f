-- ===== src/Directory/Write/Sample.antt =====
-- Directories of files with long names.
use external_squashfs_tools.Common.{
  ℕ, zero, suc, ◌+◌, ◌*◌, ◌≡◌, refl, List, [], ◌∷◌, length, replicate,
}
use external_squashfs_tools.Directory.Write.{
  add_dir, add_room, place, needs_header, end_group, add_index, start_group, put_entry,
  scan7_init_dir, write_dir, close_group,
}
use external_squashfs_tools.Directory.Write.Listing.{Entry, add_dirs}

-- Files with names of one letter repeated.
abbrev pub files : ℕ → List Entry
files zero = []
files (suc n) =
    record { inode = 65536 * 7 + 32 * n; inode_number = n; name = replicate 200 b'a'; type = 2 }
    ∷ files n

pub length-files : length (write_dir (add_dirs (files 50) (scan7_init_dir 0 0))) ≡ 10424
unfolding write_dir add_dir add_room place needs_header end_group add_index start_group put_entry
    scan7_init_dir close_group
length-files = refl

pub length_two : length (write_dir (add_dirs (files 2) (scan7_init_dir 3 9))) ≡ 428
unfolding write_dir add_dir add_room place needs_header end_group add_index start_group put_entry
    scan7_init_dir close_group
length_two = refl
