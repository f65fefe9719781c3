-- ===== src/Validators/BlockHash.antt =====
-- `get_validated_block_hash` and the functions that it dispatches to: the hash that the proof
-- stands on, by the kind of chain.
pub mod Laws
pub mod Linea
use malda_lending_fuzz.Prelude.{
  ℕ, Bool, true, false, Option, ◌==◌, ◌||◌, if◌then◌else◌, Outcome, ok, err, ◌>>=◌, ◌>>◌, assert,
  expect, invalid_chain_id, unwrap_none, hash_mismatch_opstack,
}
use malda_lending_fuzz.Bytes.{B256}
use malda_lending_fuzz.Constants.{
  optimism_chain_id, base_chain_id, linea_chain_id, ethereum_chain_id, optimism_sepolia_chain_id,
  base_sepolia_chain_id, linea_sepolia_chain_id, ethereum_sepolia_chain_id,
}
use malda_lending_fuzz.Externals.{Externals, eth, eth_mainnet_chain_spec}
use malda_lending_fuzz.Types.Commitment.{SequencerCommitment}
use malda_lending_fuzz.Validators.Opstack.{
  validate_opstack_env, get_validated_ethereum_block_hash_via_opstack,
}
use malda_lending_fuzz.Validators.DisputeGame.{validate_opstack_dispute_game_commitment}
use malda_lending_fuzz.Validators.Linea.{validate_linea_env, validate_linea_env_with_l1_inclusion}

-- The `match` that gives the Ethereum chain of an OpStack chain.
unfoldable pub ethereum_of_opstack : ℕ → Outcome ℕ
ethereum_of_opstack chain_id =
    if chain_id == optimism_chain_id || chain_id == base_chain_id
    then ok ethereum_chain_id
    else if chain_id == optimism_sepolia_chain_id || chain_id == base_sepolia_chain_id
    then ok ethereum_sepolia_chain_id
    else err invalid_chain_id

-- The `match` that gives the Ethereum chain of a Linea chain.
unfoldable pub ethereum_of_linea : ℕ → Outcome ℕ
ethereum_of_linea chain_id =
    if chain_id == linea_chain_id
    then ok ethereum_chain_id
    else if chain_id == linea_sepolia_chain_id
    then ok ethereum_sepolia_chain_id
    else err invalid_chain_id

module _ (X : Externals) where
  -- The branch with L1 inclusion.
  opstack_l1_inclusion :
      ℕ
      → Option (SequencerCommitment X)
      → Option (X.EvmInput eth)
      → Option (X.EvmInput eth)
      → B256
      → Option X.Commitment
      → Option (SequencerCommitment X)
      → Option (X.EvmInput eth)
      → Outcome (Unit {0})
  opstack_l1_inclusion chain_id commitment_1 l1_block_call_1 eth_for_l1_inclusion validated_hash
        op_env_commitment commitment_2 l1_block_call_2 =
      do
        ethereum_chain ← ethereum_of_opstack chain_id
        ethereum_hash ←
            get_validated_ethereum_block_hash_via_opstack X commitment_1 l1_block_call_1
              ethereum_chain commitment_2 l1_block_call_2
        assert (ethereum_hash == validated_hash) hash_mismatch_opstack
        eth_input ← expect eth_for_l1_inclusion unwrap_none
        eth_env ← X.into_env eth eth_input eth_mainnet_chain_spec
        op_commitment ← expect op_env_commitment unwrap_none
        validate_opstack_dispute_game_commitment X chain_id eth_env op_commitment

  -- The branch without.
  opstack_commitment : ℕ → Option (SequencerCommitment X) → B256 → Outcome (Unit {0})
  opstack_commitment chain_id commitment_1 validated_hash = do
    commitment ← expect commitment_1 unwrap_none
    validate_opstack_env X chain_id commitment validated_hash

  unfoldable pub get_validated_block_hash_opstack :
      ℕ
      → Option (SequencerCommitment X)
      → Option (X.EvmInput eth)
      → Option (X.EvmInput eth)
      → X.Header
      → Bool
      → Option X.Commitment
      → Option (SequencerCommitment X)
      → Option (X.EvmInput eth)
      → Outcome B256
  unfolding opstack_l1_inclusion opstack_commitment
  get_validated_block_hash_opstack chain_id commitment_1 l1_block_call_1 eth_for_l1_inclusion header
        validate_l1_inclusion op_env_commitment commitment_2 l1_block_call_2 =
      do
        let validated_hash = X.hash_slow header
        (if validate_l1_inclusion
            then opstack_l1_inclusion chain_id commitment_1 l1_block_call_1 eth_for_l1_inclusion
                validated_hash op_env_commitment commitment_2 l1_block_call_2
            else opstack_commitment chain_id commitment_1 validated_hash)
        ok validated_hash

  -- The part of the Linea check that only a request with L1 inclusion runs.
  linea_l1_inclusion :
      ℕ
      → X.Header
      → Option (SequencerCommitment X)
      → Option (X.EvmInput eth)
      → Option (X.EvmInput eth)
      → Option (SequencerCommitment X)
      → Option (X.EvmInput eth)
      → Outcome (Unit {0})
  linea_l1_inclusion chain_id env_header commitment_1 l1_block_call_1 eth_for_l1_inclusion
        commitment_2 l1_block_call_2 =
      do
        ethereum_chain ← ethereum_of_linea chain_id
        ethereum_hash ←
            get_validated_ethereum_block_hash_via_opstack X commitment_1 l1_block_call_1
              ethereum_chain commitment_2 l1_block_call_2
        eth_input ← expect eth_for_l1_inclusion unwrap_none
        validate_linea_env_with_l1_inclusion X chain_id (X.number env_header) eth_input
            ethereum_hash

  unfoldable pub get_validated_block_hash_linea :
      ℕ
      → X.Header
      → Option (SequencerCommitment X)
      → Option (X.EvmInput eth)
      → Option (X.EvmInput eth)
      → X.Header
      → Bool
      → Option (SequencerCommitment X)
      → Option (X.EvmInput eth)
      → Outcome B256
  unfolding linea_l1_inclusion
  get_validated_block_hash_linea chain_id env_header commitment_1 l1_block_call_1
        eth_for_l1_inclusion header validate_l1_inclusion commitment_2 l1_block_call_2 =
      do
        (if validate_l1_inclusion
            then linea_l1_inclusion chain_id env_header commitment_1 l1_block_call_1
                eth_for_l1_inclusion commitment_2 l1_block_call_2
            else ok tt)
        validate_linea_env X chain_id header
        ok (X.hash_slow header)

  unfoldable pub get_validated_block_hash :
      ℕ
      → X.Header
      → Option (SequencerCommitment X)
      → Option (X.EvmInput eth)
      → Option (X.EvmInput eth)
      → X.Header
      → Bool
      → Option X.Commitment
      → Option (SequencerCommitment X)
      → Option (X.EvmInput eth)
      → Outcome B256
  get_validated_block_hash chain_id env_header commitment_1 l1_block_call_1 eth_for_l1_inclusion
        header validate_l1_inclusion op_env_commitment commitment_2 l1_block_call_2 =
      if chain_id == linea_chain_id || chain_id == linea_sepolia_chain_id
      then get_validated_block_hash_linea chain_id env_header commitment_1 l1_block_call_1
          eth_for_l1_inclusion header validate_l1_inclusion commitment_2 l1_block_call_2
      else if chain_id == optimism_chain_id
          || chain_id == base_chain_id
          || chain_id == base_sepolia_chain_id
          || chain_id == optimism_sepolia_chain_id
      then get_validated_block_hash_opstack chain_id commitment_1 l1_block_call_1
          eth_for_l1_inclusion header validate_l1_inclusion op_env_commitment commitment_2
          l1_block_call_2
      else if chain_id == ethereum_chain_id || chain_id == ethereum_sepolia_chain_id
      then get_validated_ethereum_block_hash_via_opstack X commitment_1 l1_block_call_1 chain_id
          commitment_2 l1_block_call_2
      else err invalid_chain_id
