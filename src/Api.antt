-- ===== src/Api.antt =====
-- Parts of the API (memgraphrag/api): the limiter of login attempts, and the reading of a query that
-- only may read.
pub mod RateLimit
pub mod Limited
pub mod Cypher
pub mod Blanked
mod Tests
