-- ===== src/Pow.antt =====
-- src/pow/: the proof of work of a block.
pub mod Difficulty
pub mod Work
