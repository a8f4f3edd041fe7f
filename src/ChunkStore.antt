-- ===== src/ChunkStore.antt =====
-- storage-node/src/chunk_store.rs: chunks in the fixed-size slots of one file.
pub mod Bytes
pub mod Header
pub mod File
pub mod Slots
pub mod Store
mod Tests
