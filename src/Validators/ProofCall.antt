-- ===== src/Validators/ProofCall.antt =====
-- `validate_get_proof_data_call`: the whole validation of one chain's request.
pub mod Sound
use malda_lending_fuzz.Prelude.{ℕ, Option, none, some, List, Outcome, ◌>>=◌, ◌>>◌}
use malda_lending_fuzz.Bytes.{Bytes, Address}
use malda_lending_fuzz.Externals.{Externals, eth, op}
use malda_lending_fuzz.Types.Commitment.{SequencerCommitment}
use malda_lending_fuzz.Validators.ChainLength.{validate_chain_length}
use malda_lending_fuzz.Validators.BlockHash.{get_validated_block_hash}
use malda_lending_fuzz.Validators.Params.{RelevantParams, sort_and_verify_relevant_params}
use malda_lending_fuzz.Validators.Batch.{batch_call_get_proof_data}

-- The arguments, named as the guest reads them, in its order.
pub record Request (X : Externals) : Type 0 where
  pub env_input : Option (X.EvmInput eth)
  pub chain_id : ℕ
  pub account : List Address
  pub asset : List Address
  pub target_chain_ids : List ℕ
  pub sequencer_commitment : Option (SequencerCommitment X)
  pub env_op_input : Option (X.EvmInput eth)
  pub linking_blocks : List X.Header
  pub env_eth_input : Option (X.EvmInput eth)
  pub op_evm_input : Option (X.EvmInput op)
  pub sequencer_commitment_opstack_2 : Option (SequencerCommitment X)
  pub env_op_input_2 : Option (X.EvmInput eth)

module _ (X : Externals) where
  -- The multicall runs on the OpStack environment where there is one.
  unfoldable pub batch_call : Request X → RelevantParams X → List Bytes → Outcome (List Bytes)
  batch_call r p output = elim p.op_env_for_viewcall_with_l1_inclusion [
    | some op_env ↦
        batch_call_get_proof_data X r.chain_id p.validate_l1_inclusion op r.account r.asset
          r.target_chain_ids op_env output
    | none ↦
        batch_call_get_proof_data X r.chain_id p.validate_l1_inclusion eth r.account r.asset
          r.target_chain_ids p.env_for_viewcall output
  ]

  unfoldable pub validate_get_proof_data_call : Request X → List Bytes → Outcome (List Bytes)
  unfolding batch_call
  validate_get_proof_data_call r output = do
    p ←
        sort_and_verify_relevant_params X r.chain_id r.env_input r.linking_blocks r.env_eth_input
          r.op_evm_input
    validated_block_hash ←
        get_validated_block_hash X r.chain_id p.env_header_to_validate r.sequencer_commitment
          r.env_op_input r.env_eth_input p.block_header_to_validate p.validate_l1_inclusion
          p.op_env_commitment r.sequencer_commitment_opstack_2 r.env_op_input_2
    validate_chain_length X p.chain_id_for_length_validation p.env_header_hash_to_validate
        r.linking_blocks validated_block_hash
    batch_call r p output
