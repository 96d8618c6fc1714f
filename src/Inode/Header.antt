-- ===== src/Inode/Header.antt =====
-- The structures of an inode on disk, and the SQUASHFS_SWAP macros, which copy them to a disk's
-- byte order and back. Each structure but the base one has its own fields behind the base's.
use external_squashfs_tools.Common.{ℕ, List, ◌++◌}
use external_squashfs_tools.Directory.Bytes.{swap_le}
use external_squashfs_tools.Directory.Read.{field}

pub record BaseInodeHeader : Type 0 where
  pub inode_type : ℕ
  pub mode : ℕ
  pub uid : ℕ
  pub guid : ℕ
  pub mtime : ℕ
  pub inode_number : ℕ

abbrev pub swap_base : BaseInodeHeader → List ℕ
swap_base h =
    swap_le 2 h.inode_type
    ++ (swap_le 2 h.mode
        ++ (swap_le 2 h.uid
            ++ (swap_le 2 h.guid ++ (swap_le 4 h.mtime ++ swap_le 4 h.inode_number))))

abbrev pub read_base : List ℕ → BaseInodeHeader
read_base p = record {
  inode_type = field 0 2 p;
  mode = field 2 2 p;
  uid = field 4 2 p;
  guid = field 6 2 p;
  mtime = field 8 4 p;
  inode_number = field 12 4 p;
}

pub record IpcInodeHeader : Type 0 where
  pub nlink : ℕ

abbrev pub swap_ipc : IpcInodeHeader → List ℕ
swap_ipc h = swap_le 4 h.nlink

pub record LipcInodeHeader : Type 0 where
  pub nlink : ℕ
  pub xattr : ℕ

abbrev pub swap_lipc : LipcInodeHeader → List ℕ
swap_lipc h = swap_le 4 h.nlink ++ swap_le 4 h.xattr

abbrev pub read_lipc : List ℕ → LipcInodeHeader
read_lipc p = record { nlink = field 16 4 p; xattr = field 20 4 p }

pub record DevInodeHeader : Type 0 where
  pub nlink : ℕ
  pub rdev : ℕ

abbrev pub swap_dev : DevInodeHeader → List ℕ
swap_dev h = swap_le 4 h.nlink ++ swap_le 4 h.rdev

abbrev pub read_dev : List ℕ → DevInodeHeader
read_dev p = record { nlink = field 16 4 p; rdev = field 20 4 p }

pub record LdevInodeHeader : Type 0 where
  pub nlink : ℕ
  pub rdev : ℕ
  pub xattr : ℕ

abbrev pub swap_ldev : LdevInodeHeader → List ℕ
swap_ldev h = swap_le 4 h.nlink ++ (swap_le 4 h.rdev ++ swap_le 4 h.xattr)

abbrev pub read_ldev : List ℕ → LdevInodeHeader
read_ldev p = record { nlink = field 16 4 p; rdev = field 20 4 p; xattr = field 24 4 p }

pub record SymlinkInodeHeader : Type 0 where
  pub nlink : ℕ
  pub symlink_size : ℕ

abbrev pub swap_symlink : SymlinkInodeHeader → List ℕ
swap_symlink h = swap_le 4 h.nlink ++ swap_le 4 h.symlink_size

abbrev pub read_symlink : List ℕ → SymlinkInodeHeader
read_symlink p = record { nlink = field 16 4 p; symlink_size = field 20 4 p }

pub record RegInodeHeader : Type 0 where
  pub start_block : ℕ
  pub fragment : ℕ
  pub offset : ℕ
  pub file_size : ℕ

abbrev pub swap_reg : RegInodeHeader → List ℕ
swap_reg h =
    swap_le 4 h.start_block
    ++ (swap_le 4 h.fragment ++ (swap_le 4 h.offset ++ swap_le 4 h.file_size))

abbrev pub read_reg : List ℕ → RegInodeHeader
read_reg p = record {
  start_block = field 16 4 p;
  fragment = field 20 4 p;
  offset = field 24 4 p;
  file_size = field 28 4 p;
}

pub record LregInodeHeader : Type 0 where
  pub start_block : ℕ
  pub file_size : ℕ
  pub sparse : ℕ
  pub nlink : ℕ
  pub fragment : ℕ
  pub offset : ℕ
  pub xattr : ℕ

abbrev pub swap_lreg : LregInodeHeader → List ℕ
swap_lreg h =
    swap_le 8 h.start_block
    ++ (swap_le 8 h.file_size
        ++ (swap_le 8 h.sparse
            ++ (swap_le 4 h.nlink
                ++ (swap_le 4 h.fragment ++ (swap_le 4 h.offset ++ swap_le 4 h.xattr)))))

abbrev pub read_lreg : List ℕ → LregInodeHeader
read_lreg p = record {
  start_block = field 16 8 p;
  file_size = field 24 8 p;
  sparse = field 32 8 p;
  nlink = field 40 4 p;
  fragment = field 44 4 p;
  offset = field 48 4 p;
  xattr = field 52 4 p;
}

pub record DirInodeHeader : Type 0 where
  pub start_block : ℕ
  pub nlink : ℕ
  pub file_size : ℕ
  pub offset : ℕ
  pub parent_inode : ℕ

abbrev pub swap_dir : DirInodeHeader → List ℕ
swap_dir h =
    swap_le 4 h.start_block
    ++ (swap_le 4 h.nlink
        ++ (swap_le 2 h.file_size ++ (swap_le 2 h.offset ++ swap_le 4 h.parent_inode)))

abbrev pub read_dir : List ℕ → DirInodeHeader
read_dir p = record {
  start_block = field 16 4 p;
  nlink = field 20 4 p;
  file_size = field 24 2 p;
  offset = field 26 2 p;
  parent_inode = field 28 4 p;
}

pub record LdirInodeHeader : Type 0 where
  pub nlink : ℕ
  pub file_size : ℕ
  pub start_block : ℕ
  pub parent_inode : ℕ
  pub i_count : ℕ
  pub offset : ℕ
  pub xattr : ℕ

abbrev pub swap_ldir : LdirInodeHeader → List ℕ
swap_ldir h =
    swap_le 4 h.nlink
    ++ (swap_le 4 h.file_size
        ++ (swap_le 4 h.start_block
            ++ (swap_le 4 h.parent_inode
                ++ (swap_le 2 h.i_count ++ (swap_le 2 h.offset ++ swap_le 4 h.xattr)))))

abbrev pub read_ldir : List ℕ → LdirInodeHeader
read_ldir p = record {
  nlink = field 16 4 p;
  file_size = field 20 4 p;
  start_block = field 24 4 p;
  parent_inode = field 28 4 p;
  i_count = field 32 2 p;
  offset = field 34 2 p;
  xattr = field 36 4 p;
}
