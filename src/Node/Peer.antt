-- ===== src/Node/Peer.antt =====
-- src/node/peer: what a node does with one peer.
pub mod Elected
pub mod Publish
pub mod Session
pub mod Receive
pub mod Handshake
pub mod Runs
pub mod Genesis
