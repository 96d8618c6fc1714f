-- ===== src/Directory.antt =====
-- Directory listings: `add_dir` and `write_dir` of squashfs-tools/mksquashfs.c write them,
-- `squashfs_opendir_4` of squashfs-tools/unsquash-4.c and `squashfs_readdir` of
-- squashfs-tools/unsquashfs.c read them back.
pub mod Bytes
pub mod Write
pub mod Read
pub mod Table
pub mod Groups
mod Tests
