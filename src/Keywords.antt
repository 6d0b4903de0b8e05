-- ===== src/Keywords.antt =====
-- pipelines/keywords_extraction: the candidate words of a document and the choice of its keywords.
pub mod Tokenizer
pub mod Scorer
mod Tests
