-- ===== src/Directory/Write.antt =====
-- `struct directory`, `scan7_init_dir`, `add_dir` and the part of `write_dir` that completes
-- the buffer, in squashfs-tools/mksquashfs.c.
pub mod Append
pub mod Encoded
pub mod Wrote
pub mod Listing
pub mod Room
pub mod Ascending
pub mod Sample
use external_squashfs_tools.Common.{
  ℕ, ◌+◌, ◌-◌, ◌/◌, ◌%◌, ◌^◌, Bool, false, not, ◌||◌, Option, none, some, List, [], ◌∷◌, ◌++◌, ltb,
  leb, ◌==◌, if◌then◌else◌, length, take, replicate, store,
}
use external_squashfs_tools.Directory.Bytes.{swap_le}

-- SQUASHFS_METADATA_SIZE and SQUASHFS_NAME_LEN.
abbrev pub metadata_size : ℕ
metadata_size = 8192

abbrev pub name_len : ℕ
name_len = 256

-- `struct cached_dir_index`: `size` is the name's length less one.
pub record DirIndex : Type 0 where
  pub index : ℕ
  pub size : ℕ
  pub name : List ℕ

-- `struct directory`: `buff` holds the bytes from `buff` to `p`, and the pointers are offsets in it.
pub record Directory : Type 0 where
  pub start_block : ℕ
  pub size : ℕ
  pub buff : List ℕ
  pub entry_count : ℕ
  pub entry_count_p : Option ℕ
  pub i_count : ℕ
  pub i_size : ℕ
  pub index : List DirIndex
  pub index_count_p : ℕ
  pub inode_number : ℕ

-- The two fields that the function leaves as they are come as arguments.
pub scan7_init_dir : (start_block inode_number : ℕ) → Directory
scan7_init_dir start_block inode_number = record {
  start_block = start_block;
  size = metadata_size;
  buff = [];
  entry_count = 256;
  entry_count_p = none;
  i_count = 0;
  i_size = 0;
  index = [];
  index_count_p = 0;
  inode_number = inode_number;
}

-- SQUASHFS_SWAP_DIR_HEADER: 12 bytes; SQUASHFS_SWAP_DIR_ENTRY and the name: 8 bytes and the name's.
abbrev pub dir_header : (count start_block inode_number : ℕ) → List ℕ
dir_header count start_block inode_number =
    swap_le 4 count ++ (swap_le 4 start_block ++ swap_le 4 inode_number)

abbrev pub dir_entry : (offset inode_number type size : ℕ) → List ℕ
dir_entry offset inode_number type size =
    swap_le 2 offset ++ (swap_le 2 inode_number ++ (swap_le 2 type ++ swap_le 2 size))

-- The header of the group that ends is stored where `entry_count_p` points.
pub close_group : Directory → List ℕ
close_group d = elim d.entry_count_p [
  | none ↦ d.buff
  | some p ↦ store p (dir_header (d.entry_count - 1) d.start_block d.inode_number) d.buff
]

-- `size` is the name's length after truncation.
pub add_room : ℕ → Directory → Directory
add_room size d =
    if leb d.size (length d.buff + 8 + size + 12)
    then record d { size = d.size + metadata_size }
    else d

abbrev pub past_block : ℕ → Directory → Bool
past_block size d = ltb metadata_size (length d.buff + 8 + size - d.index_count_p)

pub needs_header : (start_block inode_number size : ℕ) → Directory → Bool
needs_header start_block inode_number size d =
    (d.entry_count == 256)
    || (not (start_block == d.start_block)
        || ((elim d.entry_count_p [ none ↦ false | some p ↦ past_block size d ])
            || (ltb (d.inode_number + 32767) inode_number
                || ltb (inode_number + 32768) d.inode_number)))

-- The new index entry, when the group ends because its block is full.
pub add_index : ℕ → List ℕ → Directory → Directory
add_index size name d =
    if past_block size d
    then record d {
      index = d.index ++ (record { index = length d.buff; size = size - 1; name = name } ∷ []);
      i_count = d.i_count + 1;
      i_size = d.i_size + 12 + size;
      index_count_p = length d.buff;
    }
    else d

pub end_group : ℕ → List ℕ → Directory → Directory
unfolding add_index close_group
end_group size name d = elim d.entry_count_p [
  | none ↦ d
  | some p ↦ record (add_index size name d) { buff = close_group d }
]

-- The 12 bytes of the new header are what the buffer held: 0 here.
pub start_group : (start_block inode_number : ℕ) → Directory → Directory
start_group start_block inode_number d = record d {
  entry_count_p = some (length d.buff);
  start_block = start_block;
  entry_count = 0;
  inode_number = inode_number;
  buff = d.buff ++ replicate 12 0;
}

pub put_entry : (offset inode_number : ℕ) → List ℕ → (type size : ℕ) → Directory → Directory
put_entry offset inode_number name type size d = record d {
  buff =
      d.buff
      ++ (dir_entry offset ((inode_number + 2 ^ 32 - d.inode_number) % 2 ^ 16) type
            ((size + 2 ^ 16 - 1) % 2 ^ 16)
          ++ take size name);
  entry_count = d.entry_count + 1;
}

-- What `add_dir` does once there is room in the buffer.
pub place : (offset start_block inode_number : ℕ) → List ℕ → (type size : ℕ) → Directory → Directory
place offset start_block inode_number name type size d =
    put_entry offset inode_number name type size (
      if needs_header start_block inode_number size d
      then start_group start_block inode_number (end_group size name d)
      else d)

-- The name comes without its terminator; a longer one is truncated.
pub add_dir : (inode inode_number : ℕ) → List ℕ → ℕ → Directory → Directory
add_dir inode inode_number name type dir =
    let size = if ltb name_len (length name) then name_len else length name in
    place (inode % 2 ^ 16) (inode / 2 ^ 16 % 2 ^ 32) inode_number name type size (add_room size dir)

-- The listing that `write_dir` copies into the directory cache.
pub write_dir : Directory → List ℕ
unfolding close_group
write_dir dir = if length dir.buff == 0 then [] else close_group dir
