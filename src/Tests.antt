-- ===== src/Tests.antt =====
-- Runs of the program's functions at concrete inputs, and the inputs of the examples.
pub mod Instances
pub mod Text
pub mod Decimals
pub mod Search
pub mod Wire
pub mod Chain
pub mod Forks
pub mod Commands
pub mod Session
pub mod Toolbox
pub mod Armored
mod Nodes
