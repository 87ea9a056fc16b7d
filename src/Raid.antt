-- ===== src/Raid.antt =====
-- HW-Raid/raid.py: the RAID simulator.
pub mod Mapping
pub mod Disk
pub mod Io
pub mod Main
mod Tests
