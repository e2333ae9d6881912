-- ===== src/Node/Messages.antt =====
-- src/node/messages/: the payloads that follow a header, and how each is read from the wire.
pub mod Numbers
pub mod Parts
pub mod Holder
pub mod Handshake
pub mod Keepalive
pub mod Votes
pub mod Confirm
pub mod Frontier
pub mod Telemetry
