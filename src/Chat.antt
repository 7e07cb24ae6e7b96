-- ===== src/Chat.antt =====
-- Conversations and their messages (memgraphrag/chat).
pub mod Thread
pub mod Store
pub mod Owned
pub mod Added
mod Tests
