-- ===== src/Analysis.antt =====
-- The analysis of a paper, of libs/analysis: the chunks of its document.
pub mod Chunking
mod Tests
