-- ===== src/Inode/Read.antt =====
-- `read_inode_4` of squashfs-tools/unsquash-4.c.
use Prim.Native.Nat.{bit_or}
use external_squashfs_tools.Common.{
  ℕ, ◌+◌, ◌-◌, ◌/◌, ◌%◌, ◌^◌, Bool, true, false, not, Option, none, some, List, [], ◌∷◌, ltb, ◌==◌,
  if◌then◌else◌, length, get_elem?, get_or, take, drop,
}
use external_squashfs_tools.Directory.Read.{field, strcpy}
use external_squashfs_tools.Metadata.{HashTableEntry, block_ptr}
use external_squashfs_tools.Inode.{
  InodeType, dir_type, file_type, symlink_type, blkdev_type, chrdev_type, fifo_type, socket_type,
  ldir_type, lreg_type, lsymlink_type, lblkdev_type, lchrdev_type, lfifo_type, lsocket_type,
}
use external_squashfs_tools.Inode.Create.{invalid}
use external_squashfs_tools.Inode.Header.{
  BaseInodeHeader, RegInodeHeader, LregInodeHeader, SymlinkInodeHeader, DirInodeHeader,
  LdirInodeHeader, DevInodeHeader, LdevInodeHeader, LipcInodeHeader, read_base, read_lipc, read_dev,
  read_ldev, read_symlink, read_reg, read_lreg, read_dir, read_ldir,
}

-- `struct inode`: `data_size` is `data`, `block_ptr` the table from there on.
pub record Inode : Type 0 where
  pub blocks : ℕ
  pub block_ptr : List ℕ
  pub data_size : ℕ
  pub fragment : ℕ
  pub frag_bytes : ℕ
  pub gid : ℕ
  pub inode_number : ℕ
  pub mode : ℕ
  pub offset : ℕ
  pub start : ℕ
  pub symlink : List ℕ
  pub time : ℕ
  pub type : ℕ
  pub uid : ℕ
  pub sparse : Bool
  pub xattr : ℕ

-- `overrun`: the code reads behind the inode table or `id_table`. The other two exit.
pub data Found : Type 0 where
  not_found unknown_type overrun : Found
  found : Inode → Found

abbrev pub inode_types : List InodeType
inode_types =
    dir_type ∷ file_type ∷ symlink_type ∷ blkdev_type ∷ chrdev_type ∷ fifo_type ∷ socket_type
    ∷ ldir_type ∷ lreg_type ∷ lsymlink_type ∷ lblkdev_type ∷ lchrdev_type ∷ lfifo_type
    ∷ lsocket_type ∷ []

-- The cases of the `switch`; `none` is the default.
abbrev pub type_numbered : ℕ → Option InodeType
type_numbered n = if n == 0 then none else get_elem? inode_types (n - 1)

-- S_IFDIR, S_IFREG, S_IFLNK, S_IFBLK, S_IFCHR, S_IFIFO and S_IFSOCK, twice.
abbrev pub lookup_type : List ℕ
lookup_type =
    0 ∷ 0x4000 ∷ 0x8000 ∷ 0xa000 ∷ 0x6000 ∷ 0x2000 ∷ 0x1000 ∷ 0xc000 ∷ 0x4000 ∷ 0x8000 ∷ 0xa000
    ∷ 0x6000 ∷ 0x2000 ∷ 0x1000 ∷ 0xc000 ∷ []

-- `sizeof` of the structure.
abbrev pub size_of : InodeType → ℕ
size_of dir_type = 32
size_of file_type = 32
size_of symlink_type = 24
size_of blkdev_type = 24
size_of chrdev_type = 24
size_of fifo_type = 16
size_of socket_type = 16
size_of ldir_type = 40
size_of lreg_type = 56
size_of lsymlink_type = 24
size_of lblkdev_type = 28
size_of lchrdev_type = 28
size_of lfifo_type = 24
size_of lsocket_type = 24

-- The remainder of a long long, as an int: C's has the sign of the first number.
abbrev pub signed_mod : ℕ → ℕ → ℕ
signed_mod x n =
    if ltb x (2 ^ 63) then x % n % 2 ^ 32 else (2 ^ 32 - (2 ^ 64 - x) % n % 2 ^ 32) % 2 ^ 32

abbrev pub frag_bytes_of : (block_size file_size fragment : ℕ) → ℕ
frag_bytes_of block_size file_size fragment =
    if fragment == invalid then 0 else signed_mod file_size block_size

abbrev pub blocks_of : (block_size block_log file_size fragment : ℕ) → ℕ
blocks_of block_size block_log file_size fragment =
    if fragment == invalid
    then (file_size + block_size - 1) / 2 ^ block_log % 2 ^ 32
    else file_size / 2 ^ block_log % 2 ^ 32

module _ (block_size block_log : ℕ) where
  unfoldable pub read_file : RegInodeHeader → (block_ptr : List ℕ) → Inode → Inode
  read_file h block_ptr i = record i {
    data_size = h.file_size;
    frag_bytes = frag_bytes_of block_size h.file_size h.fragment;
    fragment = h.fragment;
    offset = h.offset;
    blocks = blocks_of block_size block_log h.file_size h.fragment;
    start = h.start_block;
    sparse = false;
    block_ptr = block_ptr;
    xattr = invalid;
  }

  unfoldable pub read_long_file : LregInodeHeader → (block_ptr : List ℕ) → Inode → Inode
  read_long_file h block_ptr i = record i {
    data_size = h.file_size;
    frag_bytes = frag_bytes_of block_size h.file_size h.fragment;
    fragment = h.fragment;
    offset = h.offset;
    blocks = blocks_of block_size block_log h.file_size h.fragment;
    start = h.start_block;
    sparse = not (h.sparse == 0);
    block_ptr = block_ptr;
    xattr = h.xattr;
  }

  unfoldable pub read_text : SymlinkInodeHeader → (long : Bool) → List ℕ → Inode → Found
  read_text h long p i =
      let n = h.symlink_size in
      if ltb (length p) (24 + n + (if long then 4 else 0))
      then overrun
      else found (record i {
        symlink = strcpy (take n (drop 24 p));
        data_size = n;
        xattr = if long then field (24 + n) 4 p else invalid;
      })

  unfoldable pub read_directory : DirInodeHeader → Inode → Inode
  read_directory h i = record i {
    data_size = h.file_size;
    offset = h.offset;
    start = h.start_block;
    xattr = invalid;
  }

  unfoldable pub read_long_directory : LdirInodeHeader → Inode → Inode
  read_long_directory h i = record i {
    data_size = h.file_size;
    offset = h.offset;
    start = h.start_block;
    xattr = h.xattr;
  }

  unfoldable pub read_device : DevInodeHeader → Inode → Inode
  read_device h i = record i { data_size = h.rdev; xattr = invalid }

  unfoldable pub read_long_device : LdevInodeHeader → Inode → Inode
  read_long_device h i = record i { data_size = h.rdev; xattr = h.xattr }

  unfoldable pub read_long_ipc : LipcInodeHeader → Inode → Inode
  read_long_ipc h i = record i { data_size = 0; xattr = h.xattr }

  -- The `switch`.
  unfoldable pub read_case : InodeType → List ℕ → Inode → Found
  read_case dir_type p i = found (read_directory (read_dir p) i)
  read_case ldir_type p i = found (read_long_directory (read_ldir p) i)
  read_case file_type p i = found (read_file (read_reg p) (drop 32 p) i)
  read_case lreg_type p i = found (read_long_file (read_lreg p) (drop 56 p) i)
  read_case symlink_type p i = read_text (read_symlink p) false p i
  read_case lsymlink_type p i = read_text (read_symlink p) true p i
  read_case blkdev_type p i = found (read_device (read_dev p) i)
  read_case chrdev_type p i = found (read_device (read_dev p) i)
  read_case lblkdev_type p i = found (read_long_device (read_ldev p) i)
  read_case lchrdev_type p i = found (read_long_device (read_ldev p) i)
  read_case fifo_type p i = found (record i { data_size = 0; xattr = invalid })
  read_case socket_type p i = found (record i { data_size = 0; xattr = invalid })
  read_case lfifo_type p i = found (read_long_ipc (read_lipc p) i)
  read_case lsocket_type p i = found (read_long_ipc (read_lipc p) i)

  abbrev pub with_base : BaseInodeHeader → (uid gid : ℕ) → Inode → Inode
  with_base h uid gid i = record i {
    uid = uid;
    gid = gid;
    mode = bit_or (get_or lookup_type h.inode_type 0) h.mode;
    type = h.inode_type;
    time = h.mtime;
    inode_number = h.inode_number;
  }

  -- From the base header on.
  unfoldable pub read_with_base :
      BaseInodeHeader → (id_table : List ℕ) → (prev : Inode) → List ℕ → Found
  read_with_base h id_table prev p = elim (get_elem? id_table h.uid) [
    | none ↦ overrun
    | some uid ↦ elim (get_elem? id_table h.guid) [
      | none ↦ overrun
      | some gid ↦ elim (type_numbered h.inode_type) [
        | none ↦ unknown_type
        | some t ↦
            if ltb (length p) (size_of t) then overrun else read_case t p (with_base h uid gid prev)
      ]
    ]
  ]

  -- The inode at the start of a part of the inode table. `prev` is what the static `i` holds.
  unfoldable pub read_inode_at : (id_table : List ℕ) → (prev : Inode) → List ℕ → Found
  read_inode_at id_table prev p =
      if ltb (length p) 16 then overrun else read_with_base (read_base p) id_table prev p

  -- `inode` is `start_block` and `offset`, as SQUASHFS_MKINODE puts them together.
  unfoldable pub read_inode :
      (ℕ → List HashTableEntry)
      → (inode_table : List ℕ) → (id_table : List ℕ) → (prev : Inode)
      → (inode_table_start inode : ℕ) → Found
  read_inode hash_table inode_table id_table prev inode_table_start inode =
      elim (block_ptr hash_table inode_table inode_table_start inode) [
        | none ↦ not_found
        | some p ↦ read_inode_at id_table prev p
      ]
