-- ===== src/Files.antt =====
-- packages/ipfs-core/src/components/files: the Mutable File System.
pub mod Write
pub mod Paths
pub mod Mode
pub mod Tree
pub mod Commands
pub mod Shards
