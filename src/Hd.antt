-- ===== src/Hd.antt =====
-- The driver of the hard disk: kernel/hd.c.
pub mod Drive
pub mod Access
pub mod Partition
mod Tests
