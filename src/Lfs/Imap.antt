-- ===== src/Lfs/Imap.antt =====
-- HW-LFS/lfs.py, class LFS: the map of the inodes in memory, beside the checkpoint region and the imap
-- chunks on the disk.
pub mod Chunks
pub mod Writes
pub mod Sealed
pub mod Runs
pub mod Init
pub mod Link
