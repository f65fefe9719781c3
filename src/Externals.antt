-- ===== src/Externals.antt =====
-- The libraries that the coprocessor calls, as parameters: alloy (headers, signatures, ABI), k256,
-- snap, SSZ and the Steel EVM environments of RISC Zero. Their documented behaviour, where a
-- theorem needs it, is `IsLawful`.
pub mod Sample
use malda_lending_fuzz.Prelude.{
  ℕ, ◌+◌, ◌-◌, ◌^◌, ◌%◌, ◌<◌, String, ◌≡◌, ◌≢◌, Bool, Option, none, List, Result, Report, Outcome,
}
use malda_lending_fuzz.Bytes.{Bytes, Address, B256, U256}
use malda_lending_fuzz.Types.Contracts.{Call, Returns}
use malda_lending_fuzz.Types.Payload.{ExecutionPayload}

-- The EVM factory that an environment is generic in.
pub data Factory : Type 0 where
  eth op : Factory

-- The chain specifications that the code names.
pub data ChainSpec : Type 0 where
  eth_mainnet_chain_spec op_mainnet_chain_spec linea_mainnet_chain_spec : ChainSpec

pub record Externals : Type 1 where
  -- The build profile: overflow checks, and the width of `usize`.
  pub overflow_checks : Bool
  pub usize_bits : ℕ
  -- alloy_primitives, alloy_consensus, alloy_sol_types and hex. A header behind `RlpHeader` hashes
  -- as the header.
  pub keccak256 : Bytes → B256
  pub hex_encode : Bytes → String
  pub Header : Type 0
  pub parent_hash : Header → B256
  pub number : Header → ℕ
  pub timestamp : Header → ℕ
  pub extra_data : Header → Bytes
  pub with_extra_data : Bytes → Header → Header
  pub hash_slow : Header → B256
  pub abi_decode_amounts : Bytes → Result Report (U256 × U256)
  pub abi_encode_journal : List Bytes → Bytes
  -- `-` on U256.
  pub u256_sub : U256 → U256 → U256
  -- alloy's `Signature`, and keys.
  pub Signature : Type 0
  pub signature_new : U256 → U256 → Bool → Signature
  pub signature_r : Signature → U256
  pub signature_s : Signature → U256
  pub signature_v : Signature → Bool
  pub signature_try_from : Bytes → Result Report Signature
  pub PublicKey : Type 0
  pub signature_recover_from_prehash : Signature → B256 → Result Report PublicKey
  pub address_from_public_key : PublicKey → Address
  -- k256
  pub EcdsaSignature : Type 0
  pub ecdsa_from_slice : Bytes → Result Report EcdsaSignature
  pub normalize_s : EcdsaSignature → Option EcdsaSignature
  pub RecoveryId : Type 0
  pub recovery_id_from_byte : ℕ → Option RecoveryId
  pub key_recover_from_prehash : Bytes → EcdsaSignature → RecoveryId → Result Report PublicKey
  -- snap and ssz
  pub decompress_vec : Bytes → Result Report Bytes
  pub from_ssz_bytes : Bytes → Result Report ExecutionPayload
  -- risc0_steel and risc0_op_steel. An input that fails its own checks makes `into_env` panic, and
  -- so does a call that reverts or reads state that the input does not hold.
  pub EvmInput : Factory → Type 0
  pub EvmEnv : Factory → Type 0
  pub into_env : (f : Factory) → EvmInput f → ChainSpec → Outcome (EvmEnv f)
  pub env_header : EvmEnv eth → Header
  pub env_seal : EvmEnv eth → B256
  pub Commitment : Type 0
  pub env_commitment : (f : Factory) → EvmEnv f → Commitment
  pub decode_id : Commitment → U256 × ℕ
  pub digest : Commitment → B256
  pub call : (f : Factory) → EvmEnv f → Address → (c : Call) → Outcome (Returns c)

-- Documented behaviour of the libraries: `Signature` keeps its parts, k256 has the four recovery
-- identifiers 0 to 3, U256 subtraction wraps, and setting the extra data of a header sets it.
pub record IsLawful (X : Externals) : Type 0 where
  pub r-new : (r s : U256) (v : Bool) → X.signature_r (X.signature_new r s v) ≡ r
  pub s-new : (r s : U256) (v : Bool) → X.signature_s (X.signature_new r s v) ≡ s
  pub v-new : (r s : U256) (v : Bool) → X.signature_v (X.signature_new r s v) ≡ v
  pub recovery_ids : (b : ℕ) → b < 4 → X.recovery_id_from_byte b ≢ none
  pub sub_wraps : (a b : U256) → X.u256_sub a b ≡ (a + 2 ^ 256 - b) % 2 ^ 256
