-- ===== src/Inode/Requests.antt =====
-- What `create_inode` can be asked for, and the inode that should be read back.
use external_squashfs_tools.Common.{
  ℕ, ◌+◌, ◌-◌, ◌*◌, ◌/◌, ◌%◌, ◌^◌, ◌<◌, ◌≡◌, ◌⊎◌, true, not, ◌&&◌, List, ◌++◌, ◌==◌, if◌then◌else◌,
  length, take,
}
use external_squashfs_tools.Directory.Groups.{IsText}
use external_squashfs_tools.Inode.{
  InodeType, dir_type, file_type, symlink_type, blkdev_type, chrdev_type, fifo_type, socket_type,
  ldir_type, lreg_type, lsymlink_type, lblkdev_type, lchrdev_type, lfifo_type, lsocket_type,
}
use external_squashfs_tools.Inode.Create.{Request, type_number, long_type, invalid, swap_ints}
use external_squashfs_tools.Inode.Read.{Inode}

-- A short directory inode has 16 bits for the size.
pub record FitsDirectory (r : Request) : Type 0 where
  pub start_block : r.start_block < 2 ^ 32
  pub offset : r.offset < 2 ^ 16
  pub byte_size : r.byte_size < 2 ^ 27
  pub short : (r.dir_is_ldir ≡ true) ⊎ (r.byte_size < 2 ^ 16)
  pub directory_count : r.directory_count + 2 < 2 ^ 32
  pub parent_no : r.parent_no < 2 ^ 32
  pub index : length r.index < 2 ^ 16

pub record FitsFile (r : Request) : Type 0 where
  pub byte_size : r.byte_size < 2 ^ 63
  pub start_block : r.start_block < 2 ^ 63
  pub sparse : r.sparse < 2 ^ 63
  pub fragment_index : r.fragment_index < 2 ^ 32
  pub fragment_offset : r.fragment_offset < 2 ^ 32

pub record FitsSymlink (r : Request) : Type 0 where
  pub symlink : IsText r.symlink
  pub symlink_size : length r.symlink < 2 ^ 32 - 1

-- The callers ask for the seven types without `L`.
abbrev pub FitsType : InodeType → Request → Type 0
FitsType dir_type r = FitsDirectory r
FitsType file_type r = FitsFile r
FitsType symlink_type r = FitsSymlink r
FitsType blkdev_type r = Unit
FitsType chrdev_type r = Unit
FitsType fifo_type r = Unit
FitsType socket_type r = Unit
FitsType _ r = ⊥

pub record IsRequest (r : Request) : Type 0 where
  pub uid : r.uid < 2 ^ 16
  pub guid : r.guid < 2 ^ 16
  pub st_mtime : r.st_mtime < 2 ^ 32
  pub inode_number : r.inode_number < 2 ^ 32
  pub nlink : r.nlink < 2 ^ 32
  pub xattr : r.xattr < 2 ^ 32
  pub fits : FitsType r.type r

-- The file type bits of a mode.
abbrev pub type_mode : InodeType → ℕ
type_mode dir_type = 0x4000
type_mode ldir_type = 0x4000
type_mode file_type = 0x8000
type_mode lreg_type = 0x8000
type_mode symlink_type = 0xa000
type_mode lsymlink_type = 0xa000
type_mode blkdev_type = 0x6000
type_mode lblkdev_type = 0x6000
type_mode chrdev_type = 0x2000
type_mode lchrdev_type = 0x2000
type_mode fifo_type = 0x1000
type_mode lfifo_type = 0x1000
type_mode socket_type = 0xc000
type_mode lsocket_type = 0xc000

-- A device number, 12 bits of major and 20 of minor: the minor's low 8 bits, the major, the rest.
abbrev pub device_number : Request → ℕ
device_number r = r.minor % 2 ^ 8 + r.major % 2 ^ 12 * 2 ^ 8 + r.minor % 2 ^ 20 / 2 ^ 8 * 2 ^ 20

module _ (block_size block_log : ℕ) where
  -- The blocks of a file without a fragment cover all of it, those of one with a fragment leave
  -- what is short of a block; an int.
  abbrev pub file_blocks : Request → ℕ
  file_blocks r =
      if r.fragment_index == invalid
      then (r.byte_size + block_size - 1) / 2 ^ block_log % 2 ^ 32
      else r.byte_size / 2 ^ block_log % 2 ^ 32

  -- What a type sets, whether the inode is a long one or not.
  abbrev pub set_fields : InodeType → Request → (rest : List ℕ) → Inode → Inode
  set_fields file_type r rest i = record i {
    data_size = r.byte_size;
    start = r.start_block;
    blocks = file_blocks r;
    fragment = r.fragment_index;
    frag_bytes = if r.fragment_index == invalid then 0 else r.byte_size % block_size;
    offset = r.fragment_offset;
    sparse = not (r.sparse == 0) && not (r.byte_size == 1);
    block_ptr = swap_ints (take r.offset r.block_list) ++ rest;
    xattr = r.xattr;
  }
  set_fields dir_type r rest i = record i {
    data_size = r.byte_size;
    start = r.start_block;
    offset = r.offset;
    xattr = r.xattr;
  }
  set_fields symlink_type r rest i = record i {
    symlink = r.symlink;
    data_size = length r.symlink;
    xattr = r.xattr;
  }
  set_fields blkdev_type r rest i = record i { data_size = device_number r; xattr = r.xattr }
  set_fields chrdev_type r rest i = record i { data_size = device_number r; xattr = r.xattr }
  set_fields _ r rest i = record i { data_size = 0; xattr = r.xattr }

  -- The rest keeps what an earlier inode left.
  abbrev pub inode_of : Request → (uid gid : ℕ) → (prev : Inode) → (rest : List ℕ) → Inode
  inode_of r uid gid prev rest = set_fields r.type r rest (record prev {
    uid = uid;
    gid = gid;
    mode = type_mode r.type + r.st_mode % 2 ^ 12;
    type = type_number (long_type r r.type);
    time = r.st_mtime;
    inode_number = r.inode_number;
  })
