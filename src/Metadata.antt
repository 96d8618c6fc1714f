-- ===== src/Metadata.antt =====
-- The metadata blocks of the inode table: `mangle2`, `get_inode` and `write_inodes` of
-- squashfs-tools/mksquashfs.c write them, `read_block`, `read_inode_table`, `add_entry` and
-- `lookup_entry` of squashfs-tools/unsquashfs.c read them.
pub mod Stored
pub mod Written
pub mod Finished
pub mod Loaded
pub mod Placed
pub mod References
pub mod Tests
use external_squashfs_tools.Common.{
  ℕ, zero, suc, ◌+◌, ◌-◌, ◌*◌, ◌/◌, ◌%◌, ◌^◌, min, Bool, true, false, not, ◌&&◌, ◌||◌, Option, none,
  some, List, [], ◌∷◌, ◌++◌, ltb, leb, ◌==◌, if◌then◌else◌, length, take, drop, replicate, store,
}
use external_squashfs_tools.Directory.Bytes.{swap_le, unswap_le}
use external_squashfs_tools.Directory.Write.{metadata_size}

-- SQUASHFS_COMPRESSED_BIT, SQUASHFS_COMPRESSED and SQUASHFS_COMPRESSED_SIZE of a 16-bit number.
abbrev pub compressed_bit : ℕ
compressed_bit = 2 ^ 15

abbrev pub is_compressed : ℕ → Bool
is_compressed b = ltb b compressed_bit

abbrev pub compressed_size : ℕ → ℕ
compressed_size b = if b % compressed_bit == 0 then compressed_bit else b % compressed_bit

-- `inode_table` up to `inode_bytes`, `data_cache` up to `cache_bytes`, with their allocations.
pub record Inodes : Type 0 where
  pub data_cache : List ℕ
  pub cache_size : ℕ
  pub inode_table : List ℕ
  pub inode_size : ℕ
  pub total_inode_bytes : ℕ

abbrev pub no_inodes : Inodes
no_inodes = record {
  data_cache = [];
  cache_size = 0;
  inode_table = [];
  inode_size = 0;
  total_inode_bytes = 0;
}

-- `compress s n` is what the compressor makes of `s` with room for `n` bytes: nothing at all when
-- that is no gain, `none` for an error, which exits.
module _ (compress : List ℕ → ℕ → Option (List ℕ)) (compress_thresh_per : ℕ) where
  -- The bytes are kept as they are when compression saves too little; `bit` marks it.
  pub choose : (bit : ℕ) → List ℕ → List ℕ → ℕ × List ℕ
  choose bit s c =
      if (length c == 0)
        || (leb (length s) (length c)
            || ltb (length s * (100 - compress_thresh_per)) (length c * 100))
      then (length s + bit, s)
      else (length c, c)

  -- The number returned, and the bytes stored.
  pub mangle2 : (uncompressed data_block : Bool) → (block_size : ℕ) → List ℕ → Option (ℕ × List ℕ)
  mangle2 uncompressed data_block block_size s =
      let bit = if data_block then 2 ^ 24 else compressed_bit in
      elim (if uncompressed then some [] else compress s block_size) [
        | none ↦ none
        | some c ↦ some (choose bit s c)
      ]

  module _ (noI : Bool) where
    -- The first `n` bytes of the cache become a block of the table.
    pub write_block : (n : ℕ) → Inodes → Option Inodes
    write_block n st = elim (mangle2 noI false metadata_size (take n st.data_cache)) [
      | none ↦ none
      | some (c_byte, d) ↦ some (record st {
        data_cache = drop n st.data_cache;
        inode_table =
            st.inode_table ++ (swap_le 2 c_byte ++ take (compressed_size (c_byte % 2 ^ 16)) d);
        inode_size =
            if ltb (st.inode_size - length st.inode_table) (2 * metadata_size + 2)
            then st.inode_size + 2 * metadata_size + 2
            else st.inode_size;
        total_inode_bytes = st.total_inode_bytes + n + 2;
      })
    ]

    -- The loop of `get_inode`, on fuel: each round takes a block from the cache.
    pub flush_full : (fuel : ℕ) → Inodes → Option Inodes
    flush_full zero st = some st
    flush_full (suc fuel) st = elim (leb metadata_size (length st.data_cache)) [
      | false ↦ some st
      | true ↦ elim (write_block metadata_size st) [ none ↦ none | some st' ↦ flush_full fuel st' ]
    ]

    abbrev pub grow_cache : (req_size : ℕ) → Inodes → ℕ
    grow_cache req_size st =
        if ltb (st.cache_size - length st.data_cache) req_size
        then if st.cache_size == 0
          then (req_size + metadata_size) / metadata_size * metadata_size
          else st.cache_size + (req_size - (st.cache_size - length st.data_cache))
        else st.cache_size

    -- The new bytes are what the cache held: 0 here. The pointer is an offset in the cache.
    pub reserve : (req_size : ℕ) → Inodes → ℕ × Inodes
    reserve req_size st = (
      length st.data_cache,
      record st {
        data_cache = st.data_cache ++ replicate req_size 0;
        cache_size = grow_cache req_size st;
      },
    )

    pub get_inode : (req_size : ℕ) → Inodes → Option (ℕ × Inodes)
    get_inode req_size st = elim (flush_full (length st.data_cache) st) [
      | none ↦ none
      | some st' ↦ some (reserve req_size st')
    ]

    -- What `create_inode` does with the inode's bytes: the inode's number is MKINODE.
    pub put_inode : List ℕ → Inodes → Option (ℕ × Inodes)
    put_inode bs st = elim (get_inode (length bs) st) [
      | none ↦ none
      | some (p, st') ↦ some (
        length st'.inode_table * 2 ^ 16 + p,
        record st' { data_cache = store p bs st'.data_cache },
      )
    ]

    -- `while(cache_bytes)`, on fuel.
    pub flush_all : (fuel : ℕ) → Inodes → Option Inodes
    flush_all zero st = some st
    flush_all (suc fuel) st = elim (length st.data_cache == 0) [
      | true ↦ some st
      | false ↦ elim (write_block (min (length st.data_cache) metadata_size) st) [
        | none ↦ none
        | some st' ↦ flush_all fuel st'
      ]
    ]

    -- The table is written behind the `bytes` of the image: the position returned, and the image.
    pub write_inodes : Inodes → (image : List ℕ) → Option (ℕ × List ℕ)
    write_inodes st image = elim (flush_all (length st.data_cache) st) [
      | none ↦ none
      | some st' ↦ some (length image, image ++ st'.inode_table)
    ]

-- The bytes of the image at a position; `none` is the end of the file.
pub read_fs_bytes : List ℕ → (byte bytes : ℕ) → Option (List ℕ)
read_fs_bytes image byte bytes =
    if leb (byte + bytes) (length image) then some (take bytes (drop byte image)) else none

-- `struct hash_table_entry`, in the chains of a hash table.
pub record HashTableEntry : Type 0 where
  pub start : ℕ
  pub bytes : ℕ

abbrev pub calculate_hash : ℕ → ℕ
calculate_hash start = start % 2 ^ 16

pub add_entry : (ℕ → List HashTableEntry) → (start bytes : ℕ) → ℕ → List HashTableEntry
add_entry hash_table start bytes h =
    if h == calculate_hash start
    then record { start = start; bytes = bytes } ∷ hash_table h
    else hash_table h

abbrev pub find_entry : List HashTableEntry → ℕ → Option ℕ
find_entry [] start = none
find_entry (e ∷ chain) start = if e.start == start then some e.bytes else find_entry chain start

-- `none` is the result -1.
pub lookup_entry : (ℕ → List HashTableEntry) → ℕ → Option ℕ
lookup_entry hash_table start = find_entry (hash_table (calculate_hash start)) start

-- `uncompress s n` is what the decompressor makes of `s` with room for `n` bytes.
module _ (uncompress : List ℕ → ℕ → Option (List ℕ)) (swap check_data : Bool) (image : List ℕ) where
  abbrev pub block_number : List ℕ → ℕ
  block_number bs =
      let c_byte = unswap_le bs in if swap then c_byte / 256 + c_byte % 256 * 256 else c_byte

  -- The block's bytes and the position behind it; `none` and no bytes are the result 0.
  pub read_content : (start offset expected c_byte : ℕ) → Bool → Option (List ℕ × ℕ)
  read_content start offset expected c_byte compressed =
      let outlen = if expected == 0 then metadata_size else expected in
      if ltb outlen c_byte then none else elim (read_fs_bytes image (start + offset) c_byte) [
        | none ↦ none
        | some s ↦ elim (if compressed then uncompress s outlen else some s) [
          | none ↦ none
          | some block ↦
              if not (expected == 0) && not (expected == length block)
              then none
              else some (block, start + offset + c_byte)
        ]
      ]

  pub read_block : (start expected : ℕ) → Option (List ℕ × ℕ)
  read_block start expected = elim (read_fs_bytes image start 2) [
    | none ↦ none
    | some bs ↦
        read_content start (if check_data then 3 else 2) expected
          (compressed_size (block_number bs)) (is_compressed (block_number bs))
  ]

  -- The result FALSE is `none`. On fuel: each block moves `start` on.
  pub read_table :
      (fuel start end : ℕ)
      → (hash_table : ℕ → List HashTableEntry) → (table : List ℕ)
      → Option ((ℕ → List HashTableEntry) × List ℕ)
  read_table zero start end hash_table table = none
  read_table (suc fuel) start end hash_table table = elim (ltb start end) [
    | false ↦ some (hash_table, table)
    | true ↦ elim (read_block start 0) [
      | none ↦ none
      | some (block, next) ↦
          elim ((length block == 0) || (not (next == end) && not (length block == metadata_size))) [
            | true ↦ none
            | false ↦
                read_table fuel next end (add_entry hash_table start (length table))
                  (table ++ block)
          ]
    ]
  ]

  -- `read_directory_table` is the same function over the other table.
  pub read_inode_table : (start end : ℕ) → Option ((ℕ → List HashTableEntry) × List ℕ)
  read_inode_table start end = read_table (end - start + 1) start end (λ h. []) []

-- Where `read_inode_4` of squashfs-tools/unsquash-4.c finds an inode: the table from there on.
-- The number has the block's position behind `start` above, and the place in the block below.
pub block_ptr : (ℕ → List HashTableEntry) → List ℕ → (start inode : ℕ) → Option (List ℕ)
block_ptr hash_table table start inode = elim (lookup_entry hash_table (start + inode / 2 ^ 16)) [
  | none ↦ none
  | some bytes ↦ some (drop (bytes + inode % 2 ^ 16) table)
]
