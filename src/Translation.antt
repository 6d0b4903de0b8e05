-- ===== src/Translation.antt =====
-- The translation pipeline, pipelines/translation.
pub mod Language
mod Tests
