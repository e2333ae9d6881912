-- ===== src/Node.antt =====
-- src/node/: the node, its messages and its peers.
pub mod Extensions
pub mod Header
pub mod Messages
pub mod State
pub mod Peer
pub mod Connection
