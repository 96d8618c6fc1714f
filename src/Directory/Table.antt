-- ===== src/Directory/Table.antt =====
-- The directory table: the part of `write_dir` of squashfs-tools/mksquashfs.c that puts a listing
-- into metadata blocks, `write_directories`, and where `squashfs_opendir_4` of
-- squashfs-tools/unsquash-4.c finds a listing.
pub mod Marks
pub mod Blocks
pub mod Put
pub mod Ended
pub mod Listed
pub mod Saved
pub mod Index
mod Tests
use external_squashfs_tools.Common.{
  ℕ, zero, suc, ◌+◌, ◌-◌, ◌*◌, ◌/◌, ◌%◌, ◌^◌, min, Bool, true, false, Option, none, some, List, [],
  ◌∷◌, ◌++◌, map, ltb, ◌==◌, if◌then◌else◌, length, take, drop,
}
use external_squashfs_tools.Directory.Bytes.{swap_le}
use external_squashfs_tools.Directory.Write.{metadata_size, DirIndex, Directory, write_dir}
use external_squashfs_tools.Directory.Read.{DirEnt, Read, read, squashfs_opendir}
use external_squashfs_tools.Metadata.{
  Inodes, HashTableEntry, compressed_size, mangle2, lookup_entry, read_inode_table,
}
use external_squashfs_tools.Inode.{dir_type}
use external_squashfs_tools.Inode.Read.{Inode, Found, found}
use external_squashfs_tools.Metadata.{read_inode_table}
use external_squashfs_tools.Inode.Create.{CachedDirIndex, Request, create_inode}
use external_squashfs_tools.Inode.Read.{
  Inode, Found, not_found, unknown_type, overrun, found, read_inode,
}

-- `directory_data_cache` up to `directory_cache_bytes`, `directory_table` up to
-- `directory_bytes`, with their allocations.
pub record Listings : Type 0 where
  pub directory_data_cache : List ℕ
  pub directory_cache_size : ℕ
  pub directory_table : List ℕ
  pub directory_size : ℕ
  pub total_directory_bytes : ℕ

abbrev pub no_listings : Listings
no_listings = record {
  directory_data_cache = [];
  directory_cache_size = 0;
  directory_table = [];
  directory_size = 0;
  total_directory_bytes = 0;
}

abbrev pub data_space : Listings → ℕ
data_space st = st.directory_cache_size - length st.directory_data_cache

abbrev pub grow_directory_cache : (dir_size : ℕ) → Listings → ℕ
grow_directory_cache dir_size st =
    if ltb (data_space st) dir_size
    then st.directory_cache_size
      + (if st.directory_cache_size == 0
          then (dir_size + metadata_size) / metadata_size * metadata_size
          else dir_size - data_space st)
    else st.directory_cache_size

abbrev pub append_listing : List ℕ → Listings → Listings
append_listing listing st = record st {
  directory_data_cache = st.directory_data_cache ++ listing;
  directory_cache_size = grow_directory_cache (length listing) st;
}

abbrev pub with_block : (directory_bytes : ℕ) → DirIndex → CachedDirIndex
with_block directory_bytes d = record {
  index = d.index;
  start_block = directory_bytes;
  size = d.size;
  name = d.name;
}

-- The entries of the index below `index` are in the block at `directory_bytes`; the others are left.
pub mark_index : (index directory_bytes : ℕ) → List DirIndex → List CachedDirIndex × List DirIndex
mark_index index directory_bytes [] = ([], [])
mark_index index directory_bytes (d ∷ ds) =
    if ltb d.index index
    then (
      with_block directory_bytes d ∷ (mark_index index directory_bytes ds).0,
      (mark_index index directory_bytes ds).1,
    )
    else ([], d ∷ ds)

-- `directory_block`, `directory_offset` and the index; `index` starts as an unsigned int.
pub record PutListing : Type 0 where
  pub directory_block : ℕ
  pub directory_offset : ℕ
  pub index : List CachedDirIndex
  pub after : Listings

-- The request for the inode that `write_dir` makes.
abbrev pub dir_request : Request → (dir_size : ℕ) → PutListing → Request
dir_request r dir_size p = record r {
  type = dir_type;
  byte_size = dir_size + 3;
  start_block = p.directory_block;
  offset = p.directory_offset;
  block_list = [];
  index = p.index;
  sparse = 0;
}

-- The first `n` bytes of the cache are stored.
abbrev pub stored_block : (n directory_size : ℕ) → Listings → ℕ × List ℕ → Listings
stored_block n directory_size st (c_byte, d) = record st {
  directory_data_cache = drop n st.directory_data_cache;
  directory_table =
      st.directory_table ++ (swap_le 2 c_byte ++ take (compressed_size (c_byte % 2 ^ 16)) d);
  directory_size = directory_size;
  total_directory_bytes = st.total_directory_bytes + n + 2;
}

module _ (compress : List ℕ → ℕ → Option (List ℕ)) (compress_thresh_per : ℕ) (noI : Bool) where
  pub write_dir_block : Listings → Option Listings
  write_dir_block st =
      elim (mangle2 compress compress_thresh_per noI false metadata_size
        (take metadata_size st.directory_data_cache)) [
          | none ↦ none
          | some c ↦ some (
              stored_block metadata_size
                (if ltb (st.directory_size - length st.directory_table) (2 * metadata_size + 2)
                  then st.directory_size + 2 * metadata_size
                  else st.directory_size)
                st c)
        ]

  -- `while(1)`, on fuel: each round but the last takes a block from the cache. The result has the
  -- index marked so far; entries that no round reaches have what malloc left, 0 here.
  pub write_dir_blocks :
      (fuel index : ℕ)
      → List DirIndex
      → List CachedDirIndex
      → Listings
      → Option (List CachedDirIndex × Listings)
  write_dir_blocks zero index pending marked st = none
  write_dir_blocks (suc fuel) index pending marked st =
      let (now, later) = mark_index index (length st.directory_table) pending in
      elim (ltb (length st.directory_data_cache) metadata_size) [
        | true ↦ some (marked ++ (now ++ map (with_block 0) later), st)
        | false ↦ elim (write_dir_block st) [
          | none ↦ none
          | some st' ↦
              write_dir_blocks fuel ((index + metadata_size) % 2 ^ 32) later (marked ++ now) st'
        ]
      ]

  pub put_listing : List ℕ → List DirIndex → Listings → Option PutListing
  put_listing listing index st =
      let offset = length st.directory_data_cache in
      elim (write_dir_blocks (length (st.directory_data_cache ++ listing) + 1)
        ((metadata_size + 2 ^ 32 - offset) % 2 ^ 32) index [] (append_listing listing st)) [
          | none ↦ none
          | some (marked, st') ↦ some (record {
            directory_block = length st.directory_table;
            directory_offset = offset;
            index = marked;
            after = st';
          })
        ]

  -- All of `write_dir`: the inode's number, and both tables.
  pub write_dir_inode : Request → Directory → Listings → Inodes → Option (ℕ × (Listings × Inodes))
  write_dir_inode r dir st inodes = elim (put_listing (write_dir dir) dir.index st) [
    | none ↦ none
    | some p ↦
        elim (create_inode compress compress_thresh_per noI
          (dir_request r (length (write_dir dir)) p) inodes) [
            | none ↦ none
            | some (number, inodes') ↦ some (number, (p.after, inodes'))
          ]
  ]

  -- `while(directory_cache_bytes)`, on fuel.
  pub flush_directories : (fuel : ℕ) → Listings → Option Listings
  flush_directories zero st = some st
  flush_directories (suc fuel) st =
      let avail_bytes = min (length st.directory_data_cache) metadata_size in
      elim (length st.directory_data_cache == 0) [
        | true ↦ some st
        | false ↦
            elim (mangle2 compress compress_thresh_per noI false metadata_size
              (take avail_bytes st.directory_data_cache)) [
                | none ↦ none
                | some c ↦ flush_directories fuel (
                    stored_block avail_bytes
                      (if ltb (st.directory_size - length st.directory_table)
                          (2 * metadata_size + 2)
                        then st.directory_size + 2 * metadata_size + 2
                        else st.directory_size)
                      st c)
              ]
      ]

  pub write_directories : Listings → (image : List ℕ) → Option (ℕ × List ℕ)
  write_directories st image = elim (flush_directories (length st.directory_data_cache) st) [
    | none ↦ none
    | some st' ↦ some (length image, image ++ st'.directory_table)
  ]

-- `none` is EXIT_UNSQUASH: the listing's block is not in the table.
pub open_listing :
    (directory_table_hash : ℕ → List HashTableEntry) (directory_table : List ℕ)
    → (directory_table_start : ℕ) → Inode
    → Option (Read (List DirEnt))
open_listing directory_table_hash directory_table directory_table_start i =
    if i.data_size == 3
    then some (read [])
    else elim (lookup_entry directory_table_hash (directory_table_start + i.start)) [
      | none ↦ none
      | some bytes ↦ some (
          squashfs_opendir i.data_size
            (record { bytes = bytes + i.offset; rest = drop (bytes + i.offset) directory_table }))
    ]

-- Over the other table, read_directory_table is what read_inode_table is.
abbrev pub read_directory_table :
    (uncompress : List ℕ → ℕ → Option (List ℕ)) (swap check_data : Bool) (image : List ℕ)
    → (start end : ℕ) → Option ((ℕ → List HashTableEntry) × List ℕ)
read_directory_table uncompress swap check_data image =
    read_inode_table uncompress swap check_data image

-- `struct dir`, and the inode.
pub record OpenDir : Type 0 where
  pub mode : ℕ
  pub uid : ℕ
  pub guid : ℕ
  pub mtime : ℕ
  pub xattr : ℕ
  pub dirs : Read (List DirEnt)
  pub inode : Inode

-- `none` is EXIT_UNSQUASH, and the faults that `Found` has.
pub open_found :
    (directory_table_hash : ℕ → List HashTableEntry) (directory_table : List ℕ)
    → (directory_table_start : ℕ) → Found
    → Option OpenDir
open_found directory_table_hash directory_table directory_table_start (found i) =
    elim (open_listing directory_table_hash directory_table directory_table_start i) [
      | none ↦ none
      | some dirs ↦ some (record {
        mode = i.mode;
        uid = i.uid;
        guid = i.gid;
        mtime = i.time;
        xattr = i.xattr;
        dirs = dirs;
        inode = i;
      })
    ]
open_found directory_table_hash directory_table directory_table_start _ = none

module _ (block_size block_log : ℕ) (inode_table_hash : ℕ → List HashTableEntry)
    (inode_table id_table : List ℕ) (inode_table_start : ℕ)
    (directory_table_hash : ℕ → List HashTableEntry) (directory_table : List ℕ)
    (directory_table_start : ℕ) where
  pub squashfs_opendir_4 : (prev : Inode) → (block_start offset : ℕ) → Option OpenDir
  squashfs_opendir_4 prev block_start offset =
      open_found directory_table_hash directory_table directory_table_start (
        read_inode block_size block_log inode_table_hash inode_table id_table prev inode_table_start
          (block_start * 2 ^ 16 + offset))
