-- ===== src/Blocks.antt =====
-- src/blocks/: blocks, their hashes and their parsing.
pub mod BlockType
pub mod Link
pub mod StateBlock
pub mod SendBlock
pub mod Block
