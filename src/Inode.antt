-- ===== src/Inode.antt =====
-- Inodes: `create_inode` of squashfs-tools/mksquashfs.c makes an inode's bytes, `read_inode_4` of
-- squashfs-tools/unsquash-4.c reads them; the structures are those of squashfs-tools/squashfs_fs.h
-- and the macros those of squashfs-tools/squashfs_swap.h. A signed field stands as its two's
-- complement.
pub mod Header
pub mod Create
pub mod Read
pub mod Swapped
pub mod Requests
pub mod Cases
pub mod Files
pub mod RoundTrip
pub mod Image
pub mod Device
mod Tests

-- The inode's types, in the order of their numbers, from 1.
pub data InodeType : Type 0 where
  dir_type file_type symlink_type blkdev_type chrdev_type fifo_type socket_type : InodeType
  ldir_type lreg_type lsymlink_type lblkdev_type lchrdev_type lfifo_type lsocket_type : InodeType
