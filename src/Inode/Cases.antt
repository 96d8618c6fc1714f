-- ===== src/Inode/Cases.antt =====
-- What the reader makes of each type's bytes.
use external_squashfs_tools.Common.{
  ℕ, ◌+◌, ◌-◌, ◌*◌, ◌/◌, ◌%◌, ◌^◌, ◌≤◌, ◌<◌, ◌≡◌, refl, sym, ap, ap₂, ◌∙◌, inl, inr, false, some,
  List, ◌++◌, append_assoc, arith, ltb, leb, if◌then◌else◌, length, bit_or_comm, bit_or_apart,
}
use external_squashfs_tools.Directory.Bytes.{swap_le}
use mathlib.Core.Bool.{true≢false}
use external_squashfs_tools.Inode.{
  InodeType, dir_type, blkdev_type, chrdev_type, fifo_type, socket_type, ldir_type, lblkdev_type,
  lchrdev_type, lfifo_type, lsocket_type,
}
use external_squashfs_tools.Inode.Create.{
  swap_index, dir_of, ldir_of, dev_of, ldev_of, Request, rdev_of, base_of, body, is_xattr, invalid,
}
use external_squashfs_tools.Inode.Read.{
  Inode, found, read_case, size_of, read_directory, read_long_directory, read_device,
  read_long_device, read_long_ipc,
}
use external_squashfs_tools.Inode.Requests.{
  IsRequest, FitsDirectory, set_fields, type_mode, device_number,
}
use external_squashfs_tools.Inode.Swapped.{
  read_dir-swap_dir, read_ldir-swap_ldir, read_dev-swap_dev, read_ldev-swap_ldev,
  read_lipc-swap_lipc,
}
use external_squashfs_tools.Inode.Header.{
  BaseInodeHeader, LipcInodeHeader, swap_base, read_dev, read_ldev, read_lipc, swap_lipc, swap_dev,
  swap_ldev, swap_dir, swap_ldir,
}

pub rdev_of_lem : (r : Request) → rdev_of r.major r.minor ≡ device_number r
unfolding rdev_of
rdev_of_lem r =
    let cut_major : (if ltb (2 ^ 12 - 1) r.major then r.major % 2 ^ 12 else r.major)
        ≡ r.major % 2 ^ 12 =
      ground arith in
    let cut_minor : (if ltb (2 ^ 20 - 1) r.minor then r.minor % 2 ^ 20 else r.minor)
        ≡ r.minor % 2 ^ 20 =
      ground arith in
    let m = r.major % 2 ^ 12 in
    let n = r.minor % 2 ^ 20 in
    let low = bit_or_apart 8 m (m * 2 ^ 8) (n % 2 ^ 8) (omega arith) (omega arith) in
    let high = n / 2 ^ 8 * 2 ^ 8 * 2 ^ 12 in
    let both = bit_or_comm (m * 2 ^ 8 + n % 2 ^ 8) (m * 2 ^ 8 + n % 2 ^ 8) high (omega arith) in
    let sum =
      bit_or_apart 20 (n / 2 ^ 8) high (m * 2 ^ 8 + n % 2 ^ 8) (omega arith) (omega arith) in
    rw (cut_major, cut_minor, low) (both ∙ sum ∙ omega arith)

device_number_small : (r : Request) → device_number r < 2 ^ 32
device_number_small r = omega arith

-- What is read behind the base header of a type.
pub record Reads (block_size block_log : ℕ) (t t' : InodeType) (r : Request) : Type 0 where
  pub bytes : List ℕ
  pub made : body t' r ≡ some bytes
  pub long_enough : size_of t' ≤ 16 + length bytes
  pub reads :
      (rest : List ℕ) (i : Inode)
      → read_case block_size block_log t' (swap_base (base_of t' r) ++ (bytes ++ rest)) i
        ≡ found (set_fields block_size block_log t r rest i)
  pub mode : type_mode t' ≡ type_mode t

pub xattr_none : (r : Request) → is_xattr r.xattr ≡ false → invalid ≡ r.xattr
xattr_none r h = ground arith

module _ (block_size block_log : ℕ) (r : Request) (h : IsRequest r) where
  rdev_small : rdev_of r.major r.minor < 2 ^ 32
  rdev_small = omega (arith, rdev_of_lem r, device_number_small r)

  read_device_lem :
      (b : BaseInodeHeader) (rest : List ℕ) (i : Inode)
      → is_xattr r.xattr ≡ false
      → read_device block_size block_log (read_dev (swap_base b ++ (swap_dev (dev_of r) ++ rest))) i
        ≡ record i { data_size = device_number r; xattr = r.xattr }
  unfolding read_device
  read_device_lem b rest i x =
      ap (λ a. read_device block_size block_log a i)
        (read_dev-swap_dev b rest (dev_of r) h.nlink rdev_small)
      ∙ ap₂ (λ d a. record i { data_size = d; xattr = a }) (rdev_of_lem r) (xattr_none r x)

  read_long_device_lem :
      (b : BaseInodeHeader) (rest : List ℕ) (i : Inode)
      → read_long_device block_size block_log
          (read_ldev (swap_base b ++ (swap_ldev (ldev_of r) ++ rest)))
          i
        ≡ record i { data_size = device_number r; xattr = r.xattr }
  unfolding read_long_device
  read_long_device_lem b rest i =
      ap (λ a. read_long_device block_size block_log a i)
        (read_ldev-swap_ldev b rest (ldev_of r) h.nlink rdev_small h.xattr)
      ∙ ap (λ d. record i { data_size = d; xattr = r.xattr }) (rdev_of_lem r)

  abbrev lipc_of : LipcInodeHeader
  lipc_of = record { nlink = r.nlink; xattr = r.xattr }

  read_long_ipc_lem :
      (b : BaseInodeHeader) (rest : List ℕ) (i : Inode)
      → read_long_ipc block_size block_log
          (read_lipc (swap_base b ++ (swap_lipc lipc_of ++ rest)))
          i
        ≡ record i { data_size = 0; xattr = r.xattr }
  unfolding read_long_ipc
  read_long_ipc_lem b rest i =
      ap (λ a. read_long_ipc block_size block_log a i)
        (read_lipc-swap_lipc b rest lipc_of h.nlink h.xattr)

  pub fifo_type-Reads : is_xattr r.xattr ≡ false → Reads block_size block_log fifo_type fifo_type r
  unfolding body read_case
  fifo_type-Reads x = record {
    bytes = swap_le 4 r.nlink;
    made = refl;
    long_enough = omega arith;
    reads = λ rest i. ap (λ a. found (record i { data_size = 0; xattr = a })) (xattr_none r x);
    mode = refl;
  }

  pub lfifo_type-Reads : Reads block_size block_log fifo_type lfifo_type r
  unfolding body read_case
  lfifo_type-Reads = record {
    bytes = swap_lipc lipc_of;
    made = refl;
    long_enough = omega arith;
    reads = λ rest i. ap found (read_long_ipc_lem (base_of lfifo_type r) rest i);
    mode = refl;
  }

  pub socket_type-Reads :
      is_xattr r.xattr ≡ false → Reads block_size block_log socket_type socket_type r
  unfolding body read_case
  socket_type-Reads x = record {
    bytes = swap_le 4 r.nlink;
    made = refl;
    long_enough = omega arith;
    reads = λ rest i. ap (λ a. found (record i { data_size = 0; xattr = a })) (xattr_none r x);
    mode = refl;
  }

  pub lsocket_type-Reads : Reads block_size block_log socket_type lsocket_type r
  unfolding body read_case
  lsocket_type-Reads = record {
    bytes = swap_lipc lipc_of;
    made = refl;
    long_enough = omega arith;
    reads = λ rest i. ap found (read_long_ipc_lem (base_of lsocket_type r) rest i);
    mode = refl;
  }

  pub blkdev_type-Reads :
      is_xattr r.xattr ≡ false → Reads block_size block_log blkdev_type blkdev_type r
  unfolding body read_case
  blkdev_type-Reads x = record {
    bytes = swap_dev (dev_of r);
    made = refl;
    long_enough = omega arith;
    reads = λ rest i. ap found (read_device_lem (base_of blkdev_type r) rest i x);
    mode = refl;
  }

  pub lblkdev_type-Reads : Reads block_size block_log blkdev_type lblkdev_type r
  unfolding body read_case
  lblkdev_type-Reads = record {
    bytes = swap_ldev (ldev_of r);
    made = refl;
    long_enough = omega arith;
    reads = λ rest i. ap found (read_long_device_lem (base_of lblkdev_type r) rest i);
    mode = refl;
  }

  pub chrdev_type-Reads :
      is_xattr r.xattr ≡ false → Reads block_size block_log chrdev_type chrdev_type r
  unfolding body read_case
  chrdev_type-Reads x = record {
    bytes = swap_dev (dev_of r);
    made = refl;
    long_enough = omega arith;
    reads = λ rest i. ap found (read_device_lem (base_of chrdev_type r) rest i x);
    mode = refl;
  }

  pub lchrdev_type-Reads : Reads block_size block_log chrdev_type lchrdev_type r
  unfolding body read_case
  lchrdev_type-Reads = record {
    bytes = swap_ldev (ldev_of r);
    made = refl;
    long_enough = omega arith;
    reads = λ rest i. ap found (read_long_device_lem (base_of lchrdev_type r) rest i);
    mode = refl;
  }

  -- Directories.
  pub dir_type-Reads :
      FitsDirectory r
      → r.dir_is_ldir ≡ false
      → is_xattr r.xattr ≡ false
      → Reads block_size block_log dir_type dir_type r
  unfolding body read_case read_directory
  dir_type-Reads f s x =
      let size : r.byte_size < 2 ^ 16 = elim f.short [
        | inl e ↦ absurd (true≢false (sym e ∙ s))
        | inr l ↦ l
      ] in
      record {
        bytes = swap_dir (dir_of r);
        made = refl;
        long_enough = omega arith;
        reads = λ rest i.
            ap (λ a. found (read_directory block_size block_log a i))
              (read_dir-swap_dir (base_of dir_type r) rest (dir_of r) f.start_block
                f.directory_count size f.offset f.parent_no)
            ∙ ap
                (λ a. found (record i {
                  data_size = r.byte_size;
                  start = r.start_block;
                  offset = r.offset;
                  xattr = a;
                }))
                (xattr_none r x);
        mode = refl;
      }

  pub ldir_type-Reads : FitsDirectory r → Reads block_size block_log dir_type ldir_type r
  unfolding body read_case read_long_directory
  ldir_type-Reads f =
      let small : leb (2 ^ 27) r.byte_size ≡ false = let n = f.byte_size in ground arith in
      let regroup =
        λ (rest : List ℕ). append_assoc (swap_ldir (ldir_of r)) (swap_index r.index) rest in
      record {
        bytes = swap_ldir (ldir_of r) ++ swap_index r.index;
        made = rw (small, body) refl;
        long_enough = omega arith;
        reads = λ rest i.
            ap (λ a. found (read_long_directory block_size block_log a i))
              (read_ldir-swap_ldir (base_of ldir_type r) (swap_index r.index ++ rest) (ldir_of r)
                f.directory_count (let n = f.byte_size in omega arith) f.start_block f.parent_no
                f.index f.offset h.xattr);
        mode = refl;
      }
