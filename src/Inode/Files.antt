-- ===== src/Inode/Files.antt =====
-- What the reader makes of a file's and of a symbolic link's bytes.
use external_squashfs_tools.Common.{
  ℕ, ◌+◌, ◌%◌, ◌^◌, ◌≤◌, ◌<◌, ◌≡◌, refl, sym, ap, ap₂, ◌∙◌, Bool, true, false, not, ◌&&◌, List,
  ◌++◌, append_assoc, arith, ltb, ◌==◌, if◌then◌else◌, length, length-append, take, drop, drop-drop,
  take_exact, drop_exact,
}
use external_squashfs_tools.Directory.Bytes.{swap_le, unswap_le, unswap_le-swap_le}
use external_squashfs_tools.Directory.Read.{field}
use external_squashfs_tools.Directory.Read.Encoded.{strcpy_text}
use external_squashfs_tools.Inode.{file_type, symlink_type, lreg_type, lsymlink_type}
use external_squashfs_tools.Inode.Header.{
  BaseInodeHeader, swap_base, swap_reg, swap_lreg, swap_symlink,
}
use external_squashfs_tools.Inode.Create.{
  Request, is_long_file, is_xattr, invalid, clamp_sparse, swap_ints, base_of, reg_of, lreg_of,
  symlink_of, body,
}
use external_squashfs_tools.Inode.Read.{
  Inode, found, signed_mod, read_file, read_long_file, read_text, read_case,
}
use external_squashfs_tools.Inode.Requests.{IsRequest, FitsFile, FitsSymlink, set_fields}
use external_squashfs_tools.Inode.Swapped.{
  read_reg-swap_reg, read_lreg-swap_lreg, read_symlink-swap_symlink,
}
use external_squashfs_tools.Inode.Cases.{Reads, xattr_none}

-- A size that is not negative.
signed_mod_small : (x n : ℕ) → x < 2 ^ 63 → 0 < n → n ≤ 2 ^ 32 → signed_mod x n ≡ x % n
signed_mod_small x n h p k =
    let s : ltb x (2 ^ 63) ≡ true = ground arith in
    let m : x % n < n = omega (arith, p) in rw s (omega (arith, m, k))

clamp_sparse_lem :
    (r : Request)
    → r.byte_size < 2 ^ 63
    → not (clamp_sparse r == 0) ≡ (not (r.sparse == 0) && not (r.byte_size == 1))
clamp_sparse_lem r h = ground arith

clamp_sparse_small : (r : Request) → r.sparse < 2 ^ 63 → clamp_sparse r < 2 ^ 64
clamp_sparse_small r h = ground arith

record IsShort (r : Request) : Type 0 where
  byte_size : r.byte_size < 2 ^ 32
  start_block : r.start_block < 2 ^ 32
  sparse : r.sparse ≡ 0
  xattr : is_xattr r.xattr ≡ false

is_long_file-IsShort : (r : Request) → is_long_file r ≡ false → IsShort r
is_long_file-IsShort r h = record {
  byte_size = ground arith;
  start_block = ground arith;
  sparse = ground arith;
  xattr = ground arith;
}

module _ (block_size block_log : ℕ) (some_size : 0 < block_size) (an_int : block_size ≤ 2 ^ 32)
    (r : Request) (h : IsRequest r) where
  -- What both kinds of file inode set, for what is read.
  abbrev file_fields : (frag_bytes xattr : ℕ) → (sparse : Bool) → List ℕ → Inode → Inode
  file_fields frag_bytes xattr sparse rest i =
      record (set_fields block_size block_log file_type r rest i) {
        frag_bytes = if r.fragment_index == invalid then 0 else frag_bytes;
        sparse = sparse;
        xattr = xattr;
      }

  pub file_type-Reads :
      FitsFile r → is_long_file r ≡ false → Reads block_size block_log file_type file_type r
  unfolding body read_case read_file
  file_type-Reads f l =
      let k = is_long_file-IsShort r l in
      let remainder = signed_mod_small r.byte_size block_size f.byte_size some_size an_int in
      let none_sparse : (not (r.sparse == 0) && not (r.byte_size == 1)) ≡ false =
        let e = k.sparse in ground arith in
      let ints = swap_ints (take r.offset r.block_list) in
      record {
        bytes = swap_reg (reg_of r) ++ ints;
        made = refl;
        long_enough = omega arith;
        reads = λ rest i.
            ap (λ a. found (read_file block_size block_log a (ints ++ rest) i))
              (read_reg-swap_reg (base_of file_type r) (ints ++ rest) (reg_of r) k.start_block
                f.fragment_index f.fragment_offset k.byte_size)
            ∙ ap₂ (λ m a. found (file_fields m a false rest i)) remainder (xattr_none r k.xattr)
            ∙ ap (λ s. found (file_fields (r.byte_size % block_size) r.xattr s rest i))
                (sym none_sparse);
        mode = refl;
      }

  pub lreg_type-Reads : FitsFile r → Reads block_size block_log file_type lreg_type r
  unfolding body read_case read_long_file
  lreg_type-Reads f =
      let remainder = signed_mod_small r.byte_size block_size f.byte_size some_size an_int in
      let ints = swap_ints (take r.offset r.block_list) in
      let start : r.start_block < 2 ^ 64 = let s = f.start_block in omega arith in
      let size : r.byte_size < 2 ^ 64 = let s = f.byte_size in omega arith in
      record {
        bytes = swap_lreg (lreg_of r) ++ ints;
        made = refl;
        long_enough = omega arith;
        reads = λ rest i.
            ap (λ a. found (read_long_file block_size block_log a (ints ++ rest) i))
              (read_lreg-swap_lreg (base_of lreg_type r) (ints ++ rest) (lreg_of r) start size
                (clamp_sparse_small r f.sparse) h.nlink f.fragment_index f.fragment_offset h.xattr)
            ∙ ap₂ (λ m s. found (file_fields m r.xattr s rest i)) remainder
                (clamp_sparse_lem r f.byte_size);
        mode = refl;
      }

  -- The text, and what is behind it.
  text_read :
      (b : BaseInodeHeader) (rest : List ℕ)
      → take
          (length r.symlink)
          (drop 24 (swap_base b ++ (swap_symlink (symlink_of r) ++ (r.symlink ++ rest))))
        ≡ r.symlink
  text_read b rest = take_exact r.symlink rest (length r.symlink) refl

  xattr_read :
      (b : BaseInodeHeader) (rest : List ℕ)
      → field (24 + length r.symlink) 4 (
          swap_base b
          ++ (swap_symlink (symlink_of r) ++ (r.symlink ++ (swap_le 4 r.xattr ++ rest))))
        ≡ r.xattr
  xattr_read b rest =
      let tail = swap_le 4 r.xattr ++ rest in
      let all = swap_base b ++ (swap_symlink (symlink_of r) ++ (r.symlink ++ tail)) in
      ap (λ q. unswap_le (take 4 q))
        (drop-drop 24 (length r.symlink) all ∙ drop_exact r.symlink tail (length r.symlink) refl)
      ∙ unswap_le-swap_le 4 r.xattr (let x = h.xattr in omega arith)

  pub symlink_type-Reads :
      FitsSymlink r
      → is_xattr r.xattr ≡ false
      → Reads block_size block_log symlink_type symlink_type r
  unfolding body read_case read_text
  symlink_type-Reads f x = record {
    bytes = swap_symlink (symlink_of r) ++ r.symlink;
    made = refl;
    long_enough = omega arith;
    reads = λ rest i.
        let all =
          swap_base (base_of symlink_type r)
          ++ (swap_symlink (symlink_of r) ++ (r.symlink ++ rest)) in
        let enough : ltb (length all) (24 + length r.symlink + 0) ≡ false =
          let l = length-append r.symlink rest in ground arith in
        ap (λ a. read_text block_size block_log a false all i)
          (read_symlink-swap_symlink (base_of symlink_type r) (r.symlink ++ rest) (symlink_of r)
            h.nlink (let n = f.symlink_size in omega arith))
        ∙ rw (enough, text_read (base_of symlink_type r) rest, strcpy_text r.symlink f.symlink)
            (ap
              (λ a.
                found (record i { symlink = r.symlink; data_size = length r.symlink; xattr = a }))
              (xattr_none r x));
    mode = refl;
  }

  pub lsymlink_type-Reads : FitsSymlink r → Reads block_size block_log symlink_type lsymlink_type r
  unfolding body read_case read_text
  lsymlink_type-Reads f = record {
    bytes = swap_symlink (symlink_of r) ++ (r.symlink ++ swap_le 4 r.xattr);
    made = refl;
    long_enough = omega arith;
    reads = λ rest i.
        let tail = swap_le 4 r.xattr ++ rest in
        let all =
          swap_base (base_of lsymlink_type r)
          ++ (swap_symlink (symlink_of r) ++ (r.symlink ++ tail)) in
        let enough : ltb (length all) (24 + length r.symlink + 4) ≡ false =
          let l = length-append r.symlink tail in ground arith in
        let number = unswap_le-swap_le 4 r.xattr (let x = h.xattr in omega arith) in
        rw (append_assoc r.symlink (swap_le 4 r.xattr) rest) (
          ap (λ a. read_text block_size block_log a true all i)
            (read_symlink-swap_symlink (base_of lsymlink_type r) (r.symlink ++ tail) (symlink_of r)
              h.nlink (let n = f.symlink_size in omega arith))
          ∙ rw (enough, text_read (base_of lsymlink_type r) tail, strcpy_text r.symlink f.symlink)
              (ap
                (λ a.
                  found (record i { symlink = r.symlink; data_size = length r.symlink; xattr = a }))
                (xattr_read (base_of lsymlink_type r) rest)));
    mode = refl;
  }
