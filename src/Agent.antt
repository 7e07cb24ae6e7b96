-- ===== src/Agent.antt =====
-- The agent (memgraphrag/agent): the budget of its messages, the filter of its answer, its tools and
-- the loop.
pub mod Budget
pub mod Evicted
pub mod Harmony
pub mod Streamed
pub mod Opened
pub mod Decided
pub mod Fence
pub mod References
pub mod Tools
pub mod Session
pub mod Loop
pub mod Counted
pub mod Looped
pub mod Stepped
pub mod Framed
pub mod Numbered
pub mod Fenced
mod Tests
mod RunTests
