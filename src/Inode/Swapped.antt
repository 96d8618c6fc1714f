-- ===== src/Inode/Swapped.antt =====
-- What the SQUASHFS_SWAP macros write they read back, for fields in range.
use external_squashfs_tools.Common.{ℕ, ◌^◌, ◌<◌, ◌≡◌, refl, List, ◌++◌, arith}
use external_squashfs_tools.Directory.Bytes.{swap_le, unswap_le, unswap_le-swap_le}
use external_squashfs_tools.Inode.Header.{
  BaseInodeHeader, swap_base, read_base, LipcInodeHeader, swap_lipc, read_lipc, DevInodeHeader,
  swap_dev, read_dev, LdevInodeHeader, swap_ldev, read_ldev, SymlinkInodeHeader, swap_symlink,
  read_symlink, RegInodeHeader, swap_reg, read_reg, LregInodeHeader, swap_lreg, read_lreg,
  DirInodeHeader, swap_dir, read_dir, LdirInodeHeader, swap_ldir, read_ldir,
}

short_field : (x : ℕ) → x < 2 ^ 16 → unswap_le (swap_le 2 x) ≡ x
short_field x h = unswap_le-swap_le 2 x (omega (arith, h))

int_field : (x : ℕ) → x < 2 ^ 32 → unswap_le (swap_le 4 x) ≡ x
int_field x h = unswap_le-swap_le 4 x (omega (arith, h))

long_field : (x : ℕ) → x < 2 ^ 64 → unswap_le (swap_le 8 x) ≡ x
long_field x h = unswap_le-swap_le 8 x (omega (arith, h))

pub record IsBase (h : BaseInodeHeader) : Type 0 where
  pub inode_type : h.inode_type < 2 ^ 16
  pub mode : h.mode < 2 ^ 16
  pub uid : h.uid < 2 ^ 16
  pub guid : h.guid < 2 ^ 16
  pub mtime : h.mtime < 2 ^ 32
  pub inode_number : h.inode_number < 2 ^ 32

pub read_base-swap_base :
    (h : BaseInodeHeader) (q : List ℕ) → IsBase h → read_base (swap_base h ++ q) ≡ h
read_base-swap_base h q k =
    rw
      (
        short_field h.inode_type k.inode_type,
        short_field h.mode k.mode,
        short_field h.uid k.uid,
        short_field h.guid k.guid,
        int_field h.mtime k.mtime,
        int_field h.inode_number k.inode_number,
      )
      refl

module _ (b : BaseInodeHeader) (q : List ℕ) where
  pub read_reg-swap_reg :
      (h : RegInodeHeader)
      → h.start_block < 2 ^ 32
      → h.fragment < 2 ^ 32
      → h.offset < 2 ^ 32
      → h.file_size < 2 ^ 32
      → read_reg (swap_base b ++ (swap_reg h ++ q)) ≡ h
  read_reg-swap_reg h s f o n =
      rw
        (
          int_field h.start_block s,
          int_field h.fragment f,
          int_field h.offset o,
          int_field h.file_size n,
        )
        refl

  pub read_lreg-swap_lreg :
      (h : LregInodeHeader)
      → h.start_block < 2 ^ 64
      → h.file_size < 2 ^ 64
      → h.sparse < 2 ^ 64
      → h.nlink < 2 ^ 32
      → h.fragment < 2 ^ 32
      → h.offset < 2 ^ 32
      → h.xattr < 2 ^ 32
      → read_lreg (swap_base b ++ (swap_lreg h ++ q)) ≡ h
  read_lreg-swap_lreg h s n p l f o x =
      rw
        (
          long_field h.start_block s,
          long_field h.file_size n,
          long_field h.sparse p,
          int_field h.nlink l,
          int_field h.fragment f,
          int_field h.offset o,
          int_field h.xattr x,
        )
        refl

  pub read_dir-swap_dir :
      (h : DirInodeHeader)
      → h.start_block < 2 ^ 32
      → h.nlink < 2 ^ 32
      → h.file_size < 2 ^ 16
      → h.offset < 2 ^ 16
      → h.parent_inode < 2 ^ 32
      → read_dir (swap_base b ++ (swap_dir h ++ q)) ≡ h
  read_dir-swap_dir h s l n o p =
      rw
        (
          int_field h.start_block s,
          int_field h.nlink l,
          short_field h.file_size n,
          short_field h.offset o,
          int_field h.parent_inode p,
        )
        refl

  pub read_ldir-swap_ldir :
      (h : LdirInodeHeader)
      → h.nlink < 2 ^ 32
      → h.file_size < 2 ^ 32
      → h.start_block < 2 ^ 32
      → h.parent_inode < 2 ^ 32
      → h.i_count < 2 ^ 16
      → h.offset < 2 ^ 16
      → h.xattr < 2 ^ 32
      → read_ldir (swap_base b ++ (swap_ldir h ++ q)) ≡ h
  read_ldir-swap_ldir h l n s p c o x =
      rw
        (
          int_field h.nlink l,
          int_field h.file_size n,
          int_field h.start_block s,
          int_field h.parent_inode p,
          short_field h.i_count c,
          short_field h.offset o,
          int_field h.xattr x,
        )
        refl

  pub read_dev-swap_dev :
      (h : DevInodeHeader)
      → h.nlink < 2 ^ 32
      → h.rdev < 2 ^ 32
      → read_dev (swap_base b ++ (swap_dev h ++ q)) ≡ h
  read_dev-swap_dev h l r = rw (int_field h.nlink l, int_field h.rdev r) refl

  pub read_ldev-swap_ldev :
      (h : LdevInodeHeader)
      → h.nlink < 2 ^ 32
      → h.rdev < 2 ^ 32
      → h.xattr < 2 ^ 32
      → read_ldev (swap_base b ++ (swap_ldev h ++ q)) ≡ h
  read_ldev-swap_ldev h l r x =
      rw (int_field h.nlink l, int_field h.rdev r, int_field h.xattr x) refl

  pub read_symlink-swap_symlink :
      (h : SymlinkInodeHeader)
      → h.nlink < 2 ^ 32
      → h.symlink_size < 2 ^ 32
      → read_symlink (swap_base b ++ (swap_symlink h ++ q)) ≡ h
  read_symlink-swap_symlink h l n = rw (int_field h.nlink l, int_field h.symlink_size n) refl

  pub read_lipc-swap_lipc :
      (h : LipcInodeHeader)
      → h.nlink < 2 ^ 32
      → h.xattr < 2 ^ 32
      → read_lipc (swap_base b ++ (swap_lipc h ++ q)) ≡ h
  read_lipc-swap_lipc h l x = rw (int_field h.nlink l, int_field h.xattr x) refl
