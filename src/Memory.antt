-- ===== src/Memory.antt =====
-- The three-layer memory (memgraphrag/memory.py): schemas, facts and passages, linked by positions.
-- The definitions stand in the modules down to `Dump`, the proofs in those below them.
pub mod Nodes
pub mod Create
pub mod Read
pub mod Link
pub mod Filter
pub mod Edit
pub mod OpenIe
pub mod Build
pub mod Dump
pub mod Relation
pub mod Invariant
pub mod Created
pub mod Joined
pub mod Built
pub mod Filed
pub mod Linked
pub mod Renumber
pub mod Detached
pub mod Removed
pub mod Restored
pub mod Added
pub mod Renamed
mod Tests
