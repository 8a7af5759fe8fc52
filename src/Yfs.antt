-- ===== src/Yfs.antt =====
-- yfs_client.cc
pub mod Numbers
pub mod Split
pub mod Services
pub mod Entries
pub mod Files
pub mod Dirs
pub mod Laws
pub mod Locks
pub mod Cached
pub mod Tests
