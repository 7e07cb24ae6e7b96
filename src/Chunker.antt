-- ===== src/Chunker.antt =====
-- The chunkers (memgraphrag/chunker): windows over the tokens of a text.
pub mod TokenSize
pub mod Windows
mod Tests
