-- ===== src/DiskSim.antt =====
-- HW-Disk/disk.py without its graphics: a disk with three tracks that seeks, rotates and transfers,
-- and the policies that choose the next request.
pub mod Layout
pub mod State
pub mod Choice
pub mod Requests
pub mod Tests
pub mod Run
