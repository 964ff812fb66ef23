-- ===== src/ByteCache.antt =====
-- crates/idb-catalog/src/byte_cache/mod.rs: ranges of remote objects kept by path and credential.
pub mod Range
pub mod Chunks
pub mod Interface
pub mod Memory
pub mod Settings
pub mod Disk
