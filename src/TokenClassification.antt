-- ===== src/TokenClassification.antt =====
-- pipelines/token_classification.rs
pub mod Windows
pub mod Consolidation
pub mod Prediction
mod Tests
