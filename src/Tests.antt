-- ===== src/Tests.antt =====
-- Runs of the theorems at concrete inputs, in the sample world.
mod Inputs
mod Cryptography
mod Validators
mod Guest
mod Host
mod Bonsai
mod Boundless
mod Signing
mod Fuzz
mod Market
mod Poc
mod Games
mod Finalized
mod Posted
mod Gateway
mod Units
