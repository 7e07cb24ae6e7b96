-- ===== src/Storage.antt =====
-- The stores on files (memgraphrag/storage): the key-value store and what it keeps on disk.
pub mod JsonKv
pub mod Durable
pub mod Replayed
pub mod Batched
mod Tests
