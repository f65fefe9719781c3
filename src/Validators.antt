-- ===== src/Validators.antt =====
-- crates/malda_utils/src/validators.rs, one module for each group of checks.
pub mod ChainLength
pub mod Opstack
pub mod DisputeGame
pub mod Linea
pub mod BlockHash
pub mod Params
pub mod Batch
pub mod ProofCall
