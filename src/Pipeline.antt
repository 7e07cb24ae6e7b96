-- ===== src/Pipeline.antt =====
-- The ingestion of documents (memgraphrag/pipeline.py): what doc-status keeps of a document, and the
-- worker that takes the pending ones from their file to the memory.
pub mod Status
pub mod Index
pub mod Worker
pub mod Process
pub mod Written
pub mod Moved
pub mod Settled
pub mod Recovered
pub mod Prepared
pub mod Drain
pub mod Drained
mod Tests
