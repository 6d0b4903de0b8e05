-- ===== src/Conversation.antt =====
-- The dialogue pipeline, pipelines/conversation.rs.
pub mod State
pub mod Manager
pub mod Context
pub mod Respond
mod Tests
