-- ===== src/Storage.antt =====
-- labos/storage: the managed storage of a lab.
pub mod Snapshots
pub mod Metadata
pub mod Allocator
