-- ===== src/Checksum/Tests.antt =====
-- Runs of the checksums.
use external_squashfs_tools.Common.{
  ℕ, ◌≡◌, Option, none, some, List, [], ◌∷◌, ◌==◌, if◌then◌else◌, replicate,
}
use external_squashfs_tools.Checksum.{
  get_checksum, get_checksum_mem, get_checksum_disk, checksum_sparse, all_zero, stored, map_option,
}
use external_squashfs_tools.Checksum.Sparse.{checksum_sparse-get_checksum}
use external_squashfs_tools.Checksum.Disk.{get_checksum_disk-stored}

abbrev buffer : List ℕ
buffer = 0 ∷ 7 ∷ 0 ∷ 255 ∷ 0 ∷ 0 ∷ 0 ∷ 0 ∷ 1 ∷ []

checksum_sparse-get_checksum_example :
    checksum_sparse buffer ≡ (get_checksum buffer 0, all_zero buffer)
checksum_sparse-get_checksum_example = checksum_sparse-get_checksum buffer

-- The block at 100 is in the cache, the others on the disk.
abbrev cached : ℕ → Option (List ℕ)
cached start = if start == 100 then some (3 ∷ 4 ∷ []) else none

abbrev disk : ℕ → ℕ → Option (List ℕ)
disk start bytes = some (replicate bytes start)

get_checksum_disk-stored_example :
    get_checksum_disk cached disk 100 5 (2 ∷ 0 ∷ 16777219 ∷ [])
    ≡ map_option get_checksum_mem (stored cached disk 100 5 (2 ∷ 0 ∷ 16777219 ∷ []))
get_checksum_disk-stored_example =
    get_checksum_disk-stored cached disk 100 5 (2 ∷ 0 ∷ 16777219 ∷ [])
