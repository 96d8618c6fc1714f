-- ===== src/Directory/Tests.antt =====
-- Runs of the directory writer and reader.
use external_squashfs_tools.Common.{◌+◌, ◌*◌, ◌≡◌, List, [], ◌∷◌, ◌++◌, map, arith, length}
use external_squashfs_tools.Directory.Write.{scan7_init_dir, write_dir}
use external_squashfs_tools.Directory.Read.{read, squashfs_opendir}
use external_squashfs_tools.Directory.Write.Listing.{
  Entry, add_dirs, listed, squashfs_opendir-write_dir,
}
use external_squashfs_tools.Directory.Write.Room.{Fits, add_dirs-Fits}

-- The third entry is in another metadata block, and the last one's inode is far away.
abbrev sample : List Entry
sample =
    record { inode = 65536 * 7 + 32; inode_number = 10; name = b'b' ∷ b'i' ∷ b'n' ∷ []; type = 1 }
    ∷ (record { inode = 65536 * 7 + 90; inode_number = 9; name = b'e' ∷ b't' ∷ b'c' ∷ []; type = 1 }
        ∷ (record {
          inode = 65536 * 9 + 4;
          inode_number = 11;
          name = b'i' ∷ b'n' ∷ b'i' ∷ b't' ∷ [];
          type = 2;
        }
            ∷ (record {
              inode = 65536 * 9 + 50;
              inode_number = 40000;
              name = b'l' ∷ b'o' ∷ b'g' ∷ [];
              type = 3;
            }
                ∷ [])))

squashfs_opendir-write_dir_example :
    squashfs_opendir
      (length (write_dir (add_dirs sample (scan7_init_dir 0 0))) + 3)
      (record { bytes = 5; rest = write_dir (add_dirs sample (scan7_init_dir 0 0)) ++ (1 ∷ []) })
    ≡ read (map listed sample)
squashfs_opendir-write_dir_example = squashfs_opendir-write_dir sample 0 0 5 (1 ∷ []) (ground arith)

add_dirs-Fits_example : Fits 0 (add_dirs sample (scan7_init_dir 0 0))
add_dirs-Fits_example = add_dirs-Fits sample 0 0
