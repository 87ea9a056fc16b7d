-- ===== src/Vsfs.antt =====
-- HW-VSFS/vsfs.py: the very simple file system simulator.
pub mod Bitmap
pub mod Block
pub mod Inode
pub mod Fs
pub mod Ops
pub mod Workload
pub mod Consistent
pub mod Atomic
mod Tests
