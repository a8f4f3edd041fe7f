-- ===== src/MetadataStore.antt =====
-- storage-metadata/src/metadata_store.rs: objects, chunks and storage nodes in memory, and the
-- file that keeps the first two.
pub mod Types
pub mod Objects
pub mod Chunks
pub mod Migration
pub mod Owned
pub mod Listing
pub mod Keeps
pub mod Removals
pub mod Steps
mod Tests
