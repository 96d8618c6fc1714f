-- ===== src/Checksum.antt =====
-- The checksums that the search for duplicate files compares: `get_checksum`,
-- `get_checksum_disk`, `get_checksum_mem`, `get_checksum_mem_buffer` and `all_zero` of
-- squashfs-tools/mksquashfs.c, `checksum_sparse` of squashfs-tools/process_fragments.c.
pub mod Sparse
pub mod Disk
mod Tests
use external_squashfs_tools.Common.{
  ℕ, zero, suc, ◌+◌, ◌-◌, ◌*◌, ◌/◌, ◌%◌, ◌^◌, Bool, true, false, ◌&&◌, Option, none, some, List, [],
  ◌∷◌, ◌++◌, ltb, ◌==◌, if◌then◌else◌, length, take, drop,
}

abbrev pub map_option : {A B : Type 0} → (A → B) → Option A → Option B
map_option f none = none
map_option f (some a) = some (f a)

-- The 16 bits turned right by one: `| 0x8000` sets a bit that the shift has cleared.
abbrev pub rotate : ℕ → ℕ
rotate c = if c % 2 == 1 then c / 2 + 2 ^ 15 else c / 2

pub get_checksum : List ℕ → ℕ → ℕ
get_checksum [] chksum = chksum
get_checksum (b ∷ buff) chksum = get_checksum buff ((rotate chksum + b) % 2 ^ 16)

pub get_checksum_mem : List ℕ → ℕ
get_checksum_mem buff = get_checksum buff 0

pub get_checksum_mem_buffer : Option (List ℕ) → ℕ
get_checksum_mem_buffer none = 0
get_checksum_mem_buffer (some content) = get_checksum content 0

-- The loop of `checksum_sparse`: the checksum and `sparse`.
pub sparse_loop : List ℕ → ℕ → Bool → ℕ × Bool
sparse_loop [] chksum sparse = (chksum, sparse)
sparse_loop (b ∷ buff) chksum sparse =
    if b == 0
    then sparse_loop buff (rotate chksum) sparse
    else sparse_loop buff ((rotate chksum + b) % 2 ^ 16) false

pub checksum_sparse : List ℕ → ℕ × Bool
checksum_sparse buff = sparse_loop buff 0 true

abbrev pub zero_bytes : List ℕ → Bool
zero_bytes [] = true
zero_bytes (b ∷ bs) = (b == 0) && zero_bytes bs

-- `p[i] == 0` for the first `entries` longs, of 8 bytes each.
abbrev pub zero_longs : ℕ → List ℕ → Bool
zero_longs zero bs = true
zero_longs (suc n) bs = zero_bytes (take 8 bs) && zero_longs n (drop 8 bs)

pub all_zero : List ℕ → Bool
all_zero bs =
    let entries = length bs / 8 in
    if zero_longs entries bs then zero_bytes (drop (8 * entries) bs) else false

-- SQUASHFS_COMPRESSED_SIZE_BLOCK: bit 24 cleared.
abbrev pub compressed_size_block : ℕ → ℕ
compressed_size_block b = b % 2 ^ 24 + b / 2 ^ 25 * 2 ^ 25

module _ (cache_lookup : ℕ → Option (List ℕ)) (read_from_disk : ℕ → ℕ → Option (List ℕ)) where
  -- The bytes of a block, from the writer's cache or else from the disk; `none` is BAD_ERROR.
  pub block_data : (start bytes : ℕ) → Option (List ℕ)
  block_data start bytes = elim (cache_lookup start) [
    | some content ↦ some (take bytes content)
    | none ↦ read_from_disk start bytes
  ]

  -- `l` bytes are left. The block list ends, or `l` passes 0, only when the sizes do not add up: `none`.
  pub disk_loop : (start l : ℕ) → List ℕ → ℕ → Option ℕ
  disk_loop start zero blocks chksum = some chksum
  disk_loop start (suc l) [] chksum = none
  disk_loop start (suc l) (b ∷ blocks) chksum = elim (compressed_size_block b == 0) [
    | true ↦ disk_loop start (suc l) blocks chksum
    | false ↦ elim (block_data start (compressed_size_block b)) [
      | none ↦ none
      | some content ↦ elim (ltb (suc l) (compressed_size_block b)) [
        | true ↦ none
        | false ↦
            disk_loop (start + compressed_size_block b) (suc l - compressed_size_block b) blocks
              (get_checksum content chksum)
      ]
    ]
  ]

  pub get_checksum_disk : (start l : ℕ) → List ℕ → Option ℕ
  get_checksum_disk start l blocks = disk_loop start l blocks 0

  -- The bytes of a file's blocks, in order.
  abbrev pub stored : (start l : ℕ) → List ℕ → Option (List ℕ)
  stored start zero blocks = some []
  stored start (suc l) [] = none
  stored start (suc l) (b ∷ blocks) = elim (compressed_size_block b == 0) [
    | true ↦ stored start (suc l) blocks
    | false ↦ elim (block_data start (compressed_size_block b)) [
      | none ↦ none
      | some content ↦ elim (ltb (suc l) (compressed_size_block b)) [
        | true ↦ none
        | false ↦
            map_option (λ rest. content ++ rest)
              (stored (start + compressed_size_block b) (suc l - compressed_size_block b) blocks)
      ]
    ]
  ]
