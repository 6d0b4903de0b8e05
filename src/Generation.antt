-- ===== src/Generation.antt =====
-- Text generation, pipelines/generation_utils.rs.
pub mod Beam
pub mod Candidates
pub mod Ranking
pub mod Decoded
pub mod BeamSearch
pub mod Ngrams
pub mod Repetition
pub mod BadWords
pub mod Greedy
pub mod Tests
