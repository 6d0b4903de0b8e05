-- ===== src/QuestionAnswering.antt =====
-- Extractive question answering, pipelines/question_answering.rs.
pub mod Features
pub mod Answers
mod Tests
