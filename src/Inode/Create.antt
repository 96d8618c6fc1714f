-- ===== src/Inode/Create.antt =====
-- `create_inode` of squashfs-tools/mksquashfs.c.
use Prim.Native.Nat.{bit_or}
use external_squashfs_tools.Common.{
  ℕ, ◌+◌, ◌-◌, ◌*◌, ◌/◌, ◌%◌, ◌^◌, Bool, not, ◌&&◌, ◌||◌, Option, none, some, List, [], ◌∷◌, ◌++◌,
  ltb, leb, ◌==◌, if◌then◌else◌, length, take,
}
use external_squashfs_tools.Directory.Bytes.{swap_le}
use external_squashfs_tools.Metadata.{Inodes, put_inode}
use external_squashfs_tools.Inode.{
  InodeType, dir_type, file_type, symlink_type, blkdev_type, chrdev_type, fifo_type, socket_type,
  ldir_type, lreg_type, lsymlink_type, lblkdev_type, lchrdev_type, lfifo_type, lsocket_type,
}
use external_squashfs_tools.Inode.Header.{
  BaseInodeHeader, swap_base, swap_ipc, swap_lipc, DevInodeHeader, swap_dev, LdevInodeHeader,
  swap_ldev, SymlinkInodeHeader, swap_symlink, RegInodeHeader, swap_reg, LregInodeHeader, swap_lreg,
  DirInodeHeader, swap_dir, LdirInodeHeader, swap_ldir,
}

-- SQUASHFS_DIR_TYPE to SQUASHFS_LSOCKET_TYPE.
abbrev pub type_number : InodeType → ℕ
type_number dir_type = 1
type_number file_type = 2
type_number symlink_type = 3
type_number blkdev_type = 4
type_number chrdev_type = 5
type_number fifo_type = 6
type_number socket_type = 7
type_number ldir_type = 8
type_number lreg_type = 9
type_number lsymlink_type = 10
type_number lblkdev_type = 11
type_number lchrdev_type = 12
type_number lfifo_type = 13
type_number lsocket_type = 14

-- SQUASHFS_INVALID_XATTR, and SQUASHFS_INVALID_FRAG.
abbrev pub invalid : ℕ
invalid = 2 ^ 32 - 1

abbrev pub is_xattr : ℕ → Bool
is_xattr xattr = not (xattr == invalid)

-- `struct cached_dir_index`: `size` is the name's length less one.
pub record CachedDirIndex : Type 0 where
  pub index : ℕ
  pub start_block : ℕ
  pub size : ℕ
  pub name : List ℕ

-- What `create_inode` is called with and what it finds at the `dir_ent`: the indices of `get_uid`
-- and `get_guid` and the result of `read_xattrs` are fields. A directory's index has the sizes
-- that `write_dir` counted.
pub record Request : Type 0 where
  pub type : InodeType
  pub st_mode : ℕ
  pub uid : ℕ
  pub guid : ℕ
  pub st_mtime : ℕ
  pub inode_number : ℕ
  pub nlink : ℕ
  pub xattr : ℕ
  pub byte_size : ℕ
  pub start_block : ℕ
  pub offset : ℕ
  pub block_list : List ℕ
  pub fragment_index : ℕ
  pub fragment_offset : ℕ
  pub sparse : ℕ
  pub dir_is_ldir : Bool
  pub directory_count : ℕ
  pub parent_no : ℕ
  pub index : List CachedDirIndex
  pub major : ℕ
  pub minor : ℕ
  pub symlink : List ℕ

abbrev pub is_long_file : Request → Bool
is_long_file r =
    ltb 1 r.nlink
    || (leb (2 ^ 32) r.byte_size
        || (leb (2 ^ 32) r.start_block || (not (r.sparse == 0) || is_xattr r.xattr)))

-- The first `switch(type)`.
unfoldable pub long_type : Request → InodeType → InodeType
long_type r file_type = if is_long_file r then lreg_type else file_type
long_type r dir_type = if r.dir_is_ldir || is_xattr r.xattr then ldir_type else dir_type
long_type r symlink_type = if is_xattr r.xattr then lsymlink_type else symlink_type
long_type r blkdev_type = if is_xattr r.xattr then lblkdev_type else blkdev_type
long_type r chrdev_type = if is_xattr r.xattr then lchrdev_type else chrdev_type
long_type r fifo_type = if is_xattr r.xattr then lfifo_type else fifo_type
long_type r socket_type = if is_xattr r.xattr then lsocket_type else socket_type
long_type r t = t

abbrev pub base_of : InodeType → Request → BaseInodeHeader
base_of t r = record {
  inode_type = type_number t;
  mode = r.st_mode % 2 ^ 12;
  uid = r.uid;
  guid = r.guid;
  mtime = r.st_mtime;
  inode_number = r.inode_number;
}

-- SQUASHFS_SWAP_INTS.
abbrev pub swap_ints : List ℕ → List ℕ
swap_ints [] = []
swap_ints (x ∷ xs) = swap_le 4 x ++ swap_ints xs

-- A file of byte_size bytes is not all sparse.
abbrev pub clamp_sparse : Request → ℕ
clamp_sparse r =
    if not (r.sparse == 0) && leb r.byte_size r.sparse
    then (r.byte_size + 2 ^ 64 - 1) % 2 ^ 64
    else r.sparse

-- The loop over the index of a directory.
abbrev pub swap_index : List CachedDirIndex → List ℕ
swap_index [] = []
swap_index (d ∷ ds) =
    (swap_le 4 d.index ++ (swap_le 4 d.start_block ++ swap_le 4 d.size))
    ++ (take (d.size + 1) d.name ++ swap_index ds)

-- The major number is cut to 12 bits, the minor one to 20.
unfoldable pub rdev_of : (major minor : ℕ) → ℕ
rdev_of major minor =
    let m = if ltb (2 ^ 12 - 1) major then major % 2 ^ 12 else major in
    let n = if ltb (2 ^ 20 - 1) minor then minor % 2 ^ 20 else minor in
    bit_or (bit_or (m * 2 ^ 8) (n % 2 ^ 8)) (n / 2 ^ 8 * 2 ^ 8 * 2 ^ 12)

abbrev pub reg_of : Request → RegInodeHeader
reg_of r = record {
  start_block = r.start_block;
  fragment = r.fragment_index;
  offset = r.fragment_offset;
  file_size = r.byte_size;
}

abbrev pub lreg_of : Request → LregInodeHeader
lreg_of r = record {
  start_block = r.start_block;
  file_size = r.byte_size;
  sparse = clamp_sparse r;
  nlink = r.nlink;
  fragment = r.fragment_index;
  offset = r.fragment_offset;
  xattr = r.xattr;
}

abbrev pub ldir_of : Request → LdirInodeHeader
ldir_of r = record {
  nlink = r.directory_count + 2;
  file_size = r.byte_size;
  start_block = r.start_block;
  parent_inode = r.parent_no;
  i_count = length r.index;
  offset = r.offset;
  xattr = r.xattr;
}

abbrev pub dir_of : Request → DirInodeHeader
dir_of r = record {
  start_block = r.start_block;
  nlink = r.directory_count + 2;
  file_size = r.byte_size;
  offset = r.offset;
  parent_inode = r.parent_no;
}

abbrev pub dev_of : Request → DevInodeHeader
dev_of r = record { nlink = r.nlink; rdev = rdev_of r.major r.minor }

abbrev pub ldev_of : Request → LdevInodeHeader
ldev_of r = record { nlink = r.nlink; rdev = rdev_of r.major r.minor; xattr = r.xattr }

abbrev pub symlink_of : Request → SymlinkInodeHeader
symlink_of r = record { nlink = r.nlink; symlink_size = length r.symlink }

-- What stands behind the base header; `none` is BAD_ERROR.
unfoldable pub body : InodeType → Request → Option (List ℕ)
body file_type r = some (swap_reg (reg_of r) ++ swap_ints (take r.offset r.block_list))
body lreg_type r = some (swap_lreg (lreg_of r) ++ swap_ints (take r.offset r.block_list))
body ldir_type r =
    if leb (2 ^ 27) r.byte_size then none else some (swap_ldir (ldir_of r) ++ swap_index r.index)
body dir_type r = some (swap_dir (dir_of r))
body chrdev_type r = some (swap_dev (dev_of r))
body blkdev_type r = some (swap_dev (dev_of r))
body lchrdev_type r = some (swap_ldev (ldev_of r))
body lblkdev_type r = some (swap_ldev (ldev_of r))
body symlink_type r = some (swap_symlink (symlink_of r) ++ r.symlink)
body lsymlink_type r = some (swap_symlink (symlink_of r) ++ (r.symlink ++ swap_le 4 r.xattr))
body fifo_type r = some (swap_ipc (record { nlink = r.nlink }))
body socket_type r = some (swap_ipc (record { nlink = r.nlink }))
body lfifo_type r = some (swap_lipc (record { nlink = r.nlink; xattr = r.xattr }))
body lsocket_type r = some (swap_lipc (record { nlink = r.nlink; xattr = r.xattr }))

unfoldable pub inode_bytes : Request → Option (List ℕ)
inode_bytes r =
    let t = long_type r r.type in
    elim (body t r) [ none ↦ none | some bs ↦ some (swap_base (base_of t r) ++ bs) ]

module _ (compress : List ℕ → ℕ → Option (List ℕ)) (compress_thresh_per : ℕ) (noI : Bool) where
  -- The number of the inode, and the tables with it.
  unfoldable pub create_inode : Request → Inodes → Option (ℕ × Inodes)
  create_inode r st = elim (inode_bytes r) [
    | none ↦ none
    | some bs ↦ put_inode compress compress_thresh_per noI bs st
  ]
