-- ===== src/Node/State.antt =====
-- src/node/state: what a node keeps of the block lattice, of its peers and of the votes.
pub mod Interface
pub mod Memory
