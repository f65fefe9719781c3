-- ===== src/Validators/Opstack.antt =====
-- `validate_opstack_env`, and the Ethereum block hash that an OpStack chain vouches for.
pub mod Laws
use malda_lending_fuzz.Prelude.{
  ℕ, Option, ◌==◌, if◌then◌else◌, Outcome, ok, err, ◌>>=◌, ◌>>◌, assert, expect, expect_ok,
  invalid_chain_id, commitment_not_verified, payload_not_converted, block_hash_mismatch,
  env_op_input_none, unwrap_none,
}
use malda_lending_fuzz.Bytes.{Address, B256}
use malda_lending_fuzz.Constants.{
  optimism_chain_id, base_chain_id, optimism_sepolia_chain_id, base_sepolia_chain_id,
  ethereum_chain_id, optimism_sequencer, base_sequencer, optimism_sepolia_sequencer,
  base_sepolia_sequencer, l1_block_address_opstack,
}
use malda_lending_fuzz.Externals.{Externals, eth, eth_mainnet_chain_spec}
use malda_lending_fuzz.Types.Contracts.{hash}
use malda_lending_fuzz.Types.Commitment.{SequencerCommitment, verify, try_from}

-- The chain whose commitment is checked: Optimism, or Optimism Sepolia.
unfoldable pub verify_via_chain : ℕ → ℕ
verify_via_chain chain_id =
    if chain_id == ethereum_chain_id then optimism_chain_id else optimism_sepolia_chain_id

module _ (X : Externals) where
  -- The `match` on the chain that verifies the commitment.
  unfoldable pub verify_for_chain : ℕ → SequencerCommitment X → Outcome (Unit {0})
  verify_for_chain chain_id commitment =
      if chain_id == optimism_chain_id
      then expect_ok (verify X commitment optimism_sequencer optimism_chain_id)
          commitment_not_verified
      else if chain_id == base_chain_id
      then expect_ok (verify X commitment base_sequencer base_chain_id) commitment_not_verified
      else if chain_id == optimism_sepolia_chain_id
      then expect_ok (verify X commitment optimism_sepolia_sequencer optimism_sepolia_chain_id)
          commitment_not_verified
      else if chain_id == base_sepolia_chain_id
      then expect_ok (verify X commitment base_sepolia_sequencer base_sepolia_chain_id)
          commitment_not_verified
      else err invalid_chain_id

  unfoldable pub validate_opstack_env : ℕ → SequencerCommitment X → B256 → Outcome (Unit {0})
  validate_opstack_env chain_id commitment env_block_hash = do
    verify_for_chain chain_id commitment
    decoded ← try_from X commitment
    payload ← expect_ok decoded payload_not_converted
    assert (payload.block_hash == env_block_hash) block_hash_mismatch

  -- The second commitment and the second input are not read.
  unfoldable pub get_validated_ethereum_block_hash_via_opstack :
      Option (SequencerCommitment X)
      → Option (X.EvmInput eth)
      → ℕ
      → Option (SequencerCommitment X)
      → Option (X.EvmInput eth)
      → Outcome B256
  get_validated_ethereum_block_hash_via_opstack commitment_1 input_1 chain_id _ _ = do
    input ← expect input_1 env_op_input_none
    env_op ← X.into_env eth input eth_mainnet_chain_spec
    commitment ← expect commitment_1 unwrap_none
    validate_opstack_env (verify_via_chain chain_id) commitment
        (X.digest (X.env_commitment eth env_op))
    X.call eth env_op l1_block_address_opstack hash
