-- ===== src/Host.antt =====
-- crates/malda_rs/src/viewcalls.rs and crates/malda_rs/src/constants.rs: the host, which reads the
-- chains over RPC and prepares the guest's input.
pub mod Chains
pub mod Network
pub mod Sequencer
pub mod L1Block
pub mod LinkingBlocks
pub mod DisputeGame
pub mod L1Inclusion
pub mod CallInput
pub mod ZkvmInput
pub mod Session
pub mod Bonsai
pub mod Boundless
