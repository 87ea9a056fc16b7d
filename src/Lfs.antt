-- ===== src/Lfs.antt =====
-- HW-LFS/lfs.py: the log-structured file system simulator.
pub mod State
pub mod Lookup
pub mod Liveness
pub mod Imap
pub mod Ops
pub mod Growth
pub mod Paths
pub mod Commands
mod Tests
