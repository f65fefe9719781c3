-- ===== src/Types.antt =====
-- crates/malda_utils/src/types.rs: the contract interfaces, the sequencer commitment and its
-- payload, and the packed encoding of the journal.
pub mod Contracts
pub mod Payload
pub mod Abi
pub mod Commitment
