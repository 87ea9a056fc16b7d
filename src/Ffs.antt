-- ===== src/Ffs.antt =====
-- HW-FFS/ffs.py: which group of cylinders an inode goes to, the bitmaps, and the deletion of a file.
pub mod State
pub mod Grid
pub mod Groups
pub mod Delete
pub mod Blocks
pub mod Create
pub mod Lines
pub mod Dump
pub mod Spans
mod Tests
