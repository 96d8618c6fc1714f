-- ===== src/Inode/Tests.antt =====
-- Three inodes: a sparse file of two blocks with a fragment, a device and a symbolic link.
use external_squashfs_tools.Common.{
  ℕ, ◌-◌, ◌^◌, ◌<◌, ◌≡◌, refl, ◌↔◌, false, some, List, [], ◌∷◌, ◌++◌, arith, length,
}
use external_squashfs_tools.Metadata.Tests.{
  run_length, expand, run_length_works, run_length_inverse,
}
use external_squashfs_tools.Inode.{file_type, chrdev_type, symlink_type}
use external_squashfs_tools.Inode.Create.{Request, rdev_of, inode_bytes}
use external_squashfs_tools.Inode.Read.{Inode, read_inode_at, found}
use external_squashfs_tools.Inode.Requests.{IsRequest, inode_of}
use external_squashfs_tools.Inode.RoundTrip.{read_inode_at-inode_bytes}
use external_squashfs_tools.Inode.Image.{IsOwned, AreOwned, Imaged, create_inode-read_inode}
use external_squashfs_tools.Inode.Device.{makedev_args, makedev_args-rdev_of}

abbrev some_file : Request
some_file = record {
  type = file_type;
  st_mode = 0x81a4;
  uid = 0;
  guid = 1;
  st_mtime = 1262304000;
  inode_number = 3;
  nlink = 1;
  xattr = 2 ^ 32 - 1;
  byte_size = 300000;
  start_block = 96;
  offset = 2;
  block_list = 5000 ∷ 0 ∷ [];
  fragment_index = 4;
  fragment_offset = 1024;
  sparse = 131072;
  dir_is_ldir = false;
  directory_count = 0;
  parent_no = 0;
  index = [];
  major = 0;
  minor = 0;
  symlink = [];
}

abbrev some_device : Request
some_device = record some_file {
  type = chrdev_type;
  st_mode = 0x21b6;
  xattr = 7;
  inode_number = 4;
  major = 1;
  minor = 773;
}

abbrev some_symlink : Request
some_symlink = record some_file {
  type = symlink_type;
  st_mode = 0xa1ff;
  inode_number = 5;
  symlink = 47 ∷ 98 ∷ [];
}

some_file-IsRequest : IsRequest some_file
some_file-IsRequest = record {
  uid = omega arith;
  guid = omega arith;
  st_mtime = omega arith;
  inode_number = omega arith;
  nlink = omega arith;
  xattr = omega arith;
  fits = record {
    byte_size = omega arith;
    start_block = omega arith;
    sparse = omega arith;
    fragment_index = omega arith;
    fragment_offset = omega arith;
  };
}

some_device-IsRequest : IsRequest some_device
some_device-IsRequest = record {
  uid = omega arith;
  guid = omega arith;
  st_mtime = omega arith;
  inode_number = omega arith;
  nlink = omega arith;
  xattr = omega arith;
  fits = tt;
}

some_symlink-IsRequest : IsRequest some_symlink
some_symlink-IsRequest = record {
  uid = omega arith;
  guid = omega arith;
  st_mtime = omega arith;
  inode_number = omega arith;
  nlink = omega arith;
  xattr = omega arith;
  fits = record { symlink = (omega arith, (omega arith, tt)); symlink_size = omega arith };
}

abbrev ids : List ℕ
ids = 0 ∷ 1000 ∷ []

owned : (r : Request) → IsRequest r → r.uid ≡ 0 → r.guid ≡ 1 → IsOwned ids r
owned r h u g = record { request = h; uid = 0; gid = 1000; owner = rw u refl; group = rw g refl }

abbrev some_requests : List Request
some_requests = some_file ∷ some_device ∷ some_symlink ∷ []

some_requests-AreOwned : AreOwned ids some_requests
some_requests-AreOwned = (
  owned some_file some_file-IsRequest refl refl,
  (
    owned some_device some_device-IsRequest refl refl,
    (owned some_symlink some_symlink-IsRequest refl refl, tt),
  ),
)

read_inode_at-inode_bytes_example :
    (bytes : List ℕ) × (inode_bytes some_file ≡ some bytes)
    × (0 < length bytes)
    × ((rest : List ℕ) (prev : Inode)
        → read_inode_at (2 ^ 17) 17 ids prev (bytes ++ rest)
          ≡ found (inode_of (2 ^ 17) 17 some_file 0 1000 prev rest))
read_inode_at-inode_bytes_example =
    read_inode_at-inode_bytes (2 ^ 17) 17 (omega arith) (omega arith) some_file some_file-IsRequest
      ids 0 1000 refl refl

create_inode-read_inode_example :
    Imaged
      (2 ^ 17)
      17
      (omega arith)
      (omega arith)
      ids
      run_length
      0
      false
      expand
      some_requests
      some_requests-AreOwned
      (104 ∷ 115 ∷ [])
create_inode-read_inode_example =
    create_inode-read_inode (2 ^ 17) 17 (omega arith) (omega arith) ids run_length 0 false expand
      run_length_works run_length_inverse some_requests some_requests-AreOwned (104 ∷ 115 ∷ [])

makedev_args-rdev_of_example :
    (makedev_args (rdev_of 1 773) ≡ (1, 5))
    × ((makedev_args (rdev_of 1 773) ≡ (1, 773)) ↔ ((1 < 2 ^ 8) × (773 < 2 ^ 8)))
makedev_args-rdev_of_example = makedev_args-rdev_of some_device
