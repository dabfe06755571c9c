-- ===== src/Fs.antt =====
-- The file system: its tables and sectors, the cache of inodes, the maps of inodes and sectors, the
-- names of files, and the calls: open, close, read, write, unlink.
pub mod State
mod Inode
mod Map
mod Sectors
mod Path
pub mod MsgType
mod Directory
pub mod Files
mod Open
mod Transfer
mod Unlink
mod Make
mod Task
mod Tests
