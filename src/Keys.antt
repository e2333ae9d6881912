-- ===== src/Keys.antt =====
-- src/keys/: keys, signatures and addresses.
pub mod Public
pub mod Address
pub mod Seed
pub mod Phrase
pub mod Armor
