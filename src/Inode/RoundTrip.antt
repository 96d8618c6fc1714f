-- ===== src/Inode/RoundTrip.antt =====
-- The reader returns what was asked for.
use Prim.Native.Nat.{bit_or}
use external_squashfs_tools.Common.{
  ℕ, ◌+◌, ◌*◌, ◌%◌, ◌^◌, ◌≤◌, ◌<◌, ◌≡◌, refl, ap, ◌∙◌, inl, inr, false, ◌||◌, some, List, ◌++◌,
  arith, ltb, Bool-cases, length, get_elem?, length-append, get_or, bit_or_apart,
}
use external_squashfs_tools.Inode.{
  InodeType, dir_type, file_type, symlink_type, blkdev_type, chrdev_type, fifo_type, socket_type,
  ldir_type, lreg_type, lsymlink_type, lblkdev_type, lchrdev_type, lfifo_type, lsocket_type,
}
use external_squashfs_tools.Inode.Header.{swap_base}
use external_squashfs_tools.Inode.Create.{
  Request, type_number, long_type, is_long_file, is_xattr, base_of, inode_bytes,
}
use external_squashfs_tools.Inode.Read.{
  Inode, found, lookup_type, type_numbered, size_of, read_case, with_base, read_with_base,
  read_inode_at,
}
use external_squashfs_tools.Inode.Requests.{IsRequest, FitsType, type_mode, set_fields, inode_of}
use external_squashfs_tools.Inode.Swapped.{read_base-swap_base, IsBase}
use external_squashfs_tools.Inode.Cases
use external_squashfs_tools.Inode.Files

type_numbered-type_number : (t : InodeType) → type_numbered (type_number t) ≡ some t
type_numbered-type_number dir_type = refl
type_numbered-type_number file_type = refl
type_numbered-type_number symlink_type = refl
type_numbered-type_number blkdev_type = refl
type_numbered-type_number chrdev_type = refl
type_numbered-type_number fifo_type = refl
type_numbered-type_number socket_type = refl
type_numbered-type_number ldir_type = refl
type_numbered-type_number lreg_type = refl
type_numbered-type_number lsymlink_type = refl
type_numbered-type_number lblkdev_type = refl
type_numbered-type_number lchrdev_type = refl
type_numbered-type_number lfifo_type = refl
type_numbered-type_number lsocket_type = refl

-- The table of modes holds `k` shifted by 12 bits.
record IsMode (t : InodeType) : Type 0 where
  bits : ℕ
  looked_up : get_or lookup_type (type_number t) 0 ≡ bits * 2 ^ 12
  is_mode : bits * 2 ^ 12 ≡ type_mode t
  number : type_number t < 16

lookup_type-IsMode : (t : InodeType) → IsMode t
lookup_type-IsMode dir_type = record {
  bits = 4;
  looked_up = refl;
  is_mode = refl;
  number = omega arith;
}
lookup_type-IsMode file_type = record {
  bits = 8;
  looked_up = refl;
  is_mode = refl;
  number = omega arith;
}
lookup_type-IsMode symlink_type = record {
  bits = 10;
  looked_up = refl;
  is_mode = refl;
  number = omega arith;
}
lookup_type-IsMode blkdev_type = record {
  bits = 6;
  looked_up = refl;
  is_mode = refl;
  number = omega arith;
}
lookup_type-IsMode chrdev_type = record {
  bits = 2;
  looked_up = refl;
  is_mode = refl;
  number = omega arith;
}
lookup_type-IsMode fifo_type = record {
  bits = 1;
  looked_up = refl;
  is_mode = refl;
  number = omega arith;
}
lookup_type-IsMode socket_type = record {
  bits = 12;
  looked_up = refl;
  is_mode = refl;
  number = omega arith;
}
lookup_type-IsMode ldir_type = record {
  bits = 4;
  looked_up = refl;
  is_mode = refl;
  number = omega arith;
}
lookup_type-IsMode lreg_type = record {
  bits = 8;
  looked_up = refl;
  is_mode = refl;
  number = omega arith;
}
lookup_type-IsMode lsymlink_type = record {
  bits = 10;
  looked_up = refl;
  is_mode = refl;
  number = omega arith;
}
lookup_type-IsMode lblkdev_type = record {
  bits = 6;
  looked_up = refl;
  is_mode = refl;
  number = omega arith;
}
lookup_type-IsMode lchrdev_type = record {
  bits = 2;
  looked_up = refl;
  is_mode = refl;
  number = omega arith;
}
lookup_type-IsMode lfifo_type = record {
  bits = 1;
  looked_up = refl;
  is_mode = refl;
  number = omega arith;
}
lookup_type-IsMode lsocket_type = record {
  bits = 12;
  looked_up = refl;
  is_mode = refl;
  number = omega arith;
}

mode_read :
    (t : InodeType) (m : ℕ)
    → bit_or (get_or lookup_type (type_number t) 0) (m % 2 ^ 12) ≡ type_mode t + m % 2 ^ 12
mode_read t m =
    let k = lookup_type-IsMode t in
    bit_or_apart 12 k.bits (get_or lookup_type (type_number t) 0) (m % 2 ^ 12)
      (k.looked_up ∙ omega arith) (omega arith)
    ∙ ap (λ x. x + m % 2 ^ 12) (k.looked_up ∙ k.is_mode)

base_of-IsBase : (t : InodeType) (r : Request) → IsRequest r → IsBase (base_of t r)
base_of-IsBase t r h = record {
  inode_type = let k = (lookup_type-IsMode t).number in omega arith;
  mode = omega arith;
  uid = h.uid;
  guid = h.guid;
  mtime = h.st_mtime;
  inode_number = h.inode_number;
}

module _ (block_size block_log : ℕ) (some_size : 0 < block_size) (an_int : block_size ≤ 2 ^ 32)
    (r : Request) (h : IsRequest r) where
  -- The type is a long one exactly when it has to be.
  long_type-Reads :
      (t : InodeType) → FitsType t r → Cases.Reads block_size block_log t (long_type r t) r
  unfolding long_type
  long_type-Reads file_type f = elim (Bool-cases (is_long_file r)) [
    | inl e ↦ rw e (Files.lreg_type-Reads block_size block_log some_size an_int r h f)
    | inr e ↦ rw e (Files.file_type-Reads block_size block_log some_size an_int r h f e)
  ]
  long_type-Reads dir_type f = elim (Bool-cases (r.dir_is_ldir || is_xattr r.xattr)) [
    | inl e ↦ rw e (Cases.ldir_type-Reads block_size block_log r h f)
    | inr e ↦ rw e (Cases.dir_type-Reads block_size block_log r h f (ground arith) (ground arith))
  ]
  long_type-Reads symlink_type f = elim (Bool-cases (is_xattr r.xattr)) [
    | inl e ↦ rw e (Files.lsymlink_type-Reads block_size block_log some_size an_int r h f)
    | inr e ↦ rw e (Files.symlink_type-Reads block_size block_log some_size an_int r h f e)
  ]
  long_type-Reads fifo_type f = elim (Bool-cases (is_xattr r.xattr)) [
    | inl e ↦ rw e (Cases.lfifo_type-Reads block_size block_log r h)
    | inr e ↦ rw e (Cases.fifo_type-Reads block_size block_log r h e)
  ]
  long_type-Reads socket_type f = elim (Bool-cases (is_xattr r.xattr)) [
    | inl e ↦ rw e (Cases.lsocket_type-Reads block_size block_log r h)
    | inr e ↦ rw e (Cases.socket_type-Reads block_size block_log r h e)
  ]
  long_type-Reads blkdev_type f = elim (Bool-cases (is_xattr r.xattr)) [
    | inl e ↦ rw e (Cases.lblkdev_type-Reads block_size block_log r h)
    | inr e ↦ rw e (Cases.blkdev_type-Reads block_size block_log r h e)
  ]
  long_type-Reads chrdev_type f = elim (Bool-cases (is_xattr r.xattr)) [
    | inl e ↦ rw e (Cases.lchrdev_type-Reads block_size block_log r h)
    | inr e ↦ rw e (Cases.chrdev_type-Reads block_size block_log r h e)
  ]
  long_type-Reads ldir_type f = absurd f
  long_type-Reads lreg_type f = absurd f
  long_type-Reads lsymlink_type f = absurd f
  long_type-Reads lblkdev_type f = absurd f
  long_type-Reads lchrdev_type f = absurd f
  long_type-Reads lfifo_type f = absurd f
  long_type-Reads lsocket_type f = absurd f

  module _ (id_table : List ℕ) (uid gid : ℕ) (owner : get_elem? id_table r.uid ≡ some uid)
      (group : get_elem? id_table r.guid ≡ some gid) where
    -- Up to the `switch`.
    read_with_base_lem :
        (t : InodeType) (p : List ℕ) (prev : Inode)
        → size_of t ≤ length p
        → read_with_base block_size block_log (base_of t r) id_table prev p
          ≡ read_case block_size block_log t p
              (with_base block_size block_log (base_of t r) uid gid prev)
    unfolding read_with_base
    read_with_base_lem t p prev l =
        let enough : ltb (length p) (size_of t) ≡ false = ground arith in
        rw (owner, read_with_base, group, type_numbered-type_number t, enough) refl

    fields_read :
        (t t' : InodeType) (rest : List ℕ) (prev : Inode)
        → type_mode t' ≡ type_mode t
        → found (
            set_fields block_size block_log t r rest
              (with_base block_size block_log (base_of t' r) uid gid prev))
          ≡ found (
              set_fields block_size block_log t r rest (record prev {
                uid = uid;
                gid = gid;
                mode = type_mode t + r.st_mode % 2 ^ 12;
                type = type_number t';
                time = r.st_mtime;
                inode_number = r.inode_number;
              }))
    fields_read t t' rest prev e =
        ap
          (λ m. found (
            set_fields block_size block_log t r rest (record prev {
              uid = uid;
              gid = gid;
              mode = m;
              type = type_number t';
              time = r.st_mtime;
              inode_number = r.inode_number;
            })))
          (mode_read t' r.st_mode ∙ ap (λ m. m + r.st_mode % 2 ^ 12) e)

    read_inode_at_lem :
        (rest : List ℕ) (prev : Inode)
        (k : Cases.Reads block_size block_log r.type (long_type r r.type) r)
        → read_inode_at block_size block_log id_table prev
            (swap_base (base_of (long_type r r.type) r) ++ (k.bytes ++ rest))
          ≡ found (inode_of block_size block_log r uid gid prev rest)
    unfolding read_inode_at
    read_inode_at_lem rest prev k =
        let t = long_type r r.type in
        let b = base_of t r in
        let p = swap_base b ++ (k.bytes ++ rest) in
        let full : ltb (length p) 16 ≡ false = ground arith in
        let size : size_of t ≤ length p =
          omega (arith, k.long_enough, length-append k.bytes rest) in
        rw (full, read_inode_at)
          (ap (λ a. read_with_base block_size block_log a id_table prev p)
              (read_base-swap_base b (k.bytes ++ rest) (base_of-IsBase t r h))
            ∙ read_with_base_lem t p prev size
            ∙ k.reads rest (with_base block_size block_log b uid gid prev)
            ∙ fields_read r.type t rest prev k.mode)

    -- For block sizes of an int and above 0, and a request whose fields fit the disk's and whose
    -- owner and group are in the table of ids: create_inode makes the inode's bytes, and from
    -- these bytes, whatever follows them, read_inode_4 reads the inode that was asked for. It
    -- has the request's fields, as set_fields and inode_of list them by the seven types asked
    -- for, be the inode a short or a long one, with `xattr` as asked, `sparse` set for a sparse
    -- file but one of 1 byte, and the fields that its type does not set as they were.
    pub read_inode_at-inode_bytes :
        (bytes : List ℕ) × (inode_bytes r ≡ some bytes)
        × (0 < length bytes)
        × ((rest : List ℕ) (prev : Inode)
            → read_inode_at block_size block_log id_table prev (bytes ++ rest)
              ≡ found (inode_of block_size block_log r uid gid prev rest))
    unfolding inode_bytes
    read_inode_at-inode_bytes =
        let k = long_type-Reads r.type h.fits in
        (
          swap_base (base_of (long_type r r.type) r) ++ k.bytes,
          rw (k.made, inode_bytes) refl,
          omega arith,
          λ rest prev. read_inode_at_lem rest prev k,
        )
