-- ===== src/Host/ZkvmInput.antt =====
-- `get_proof_data_zkvm_input`: the whole input of one chain.
pub mod Prepared
use malda_lending_fuzz.Prelude.{
  ℕ, Bool, true, false, ◌&&◌, ◌||◌, ◌==◌, if◌then◌else◌, String, Option, List, Outcome, ok, ◌>>=◌,
  expect, expect_ok, unwrap_none, serialization_failed,
}
use malda_lending_fuzz.Bytes.{Bytes, Address}
use malda_lending_fuzz.Constants.{
  ethereum_chain_id, optimism_chain_id, base_chain_id, ethereum_sepolia_chain_id,
  optimism_sepolia_chain_id, linea_sepolia_chain_id, base_sepolia_chain_id,
}
use malda_lending_fuzz.Externals.{Externals}
use malda_lending_fuzz.Validators.ProofCall.{Request}
use malda_lending_fuzz.Host.Chains.{
  get_chain_params, is_opstack_chain, is_linea_chain, is_ethereum_chain,
}
use malda_lending_fuzz.Host.Network.{Network, get_rpc_url}
use malda_lending_fuzz.Host.Sequencer.{get_sequencer_commitments_and_blocks}
use malda_lending_fuzz.Host.L1Block.{get_l1block_call_inputs_and_l1_block_numbers}
use malda_lending_fuzz.Host.LinkingBlocks.{get_linking_blocks}
use malda_lending_fuzz.Host.L1Inclusion.{get_env_input_for_l1_inclusion_and_l2_block_number}
use malda_lending_fuzz.Host.CallInput.{get_proof_data_call_input}

unfoldable pub is_sepolia_chain : ℕ → Bool
is_sepolia_chain chain_id =
    chain_id == optimism_sepolia_chain_id
    || chain_id == base_sepolia_chain_id
    || chain_id == ethereum_sepolia_chain_id
    || chain_id == linea_sepolia_chain_id

-- The block for the linking blocks and the call.
unfoldable pub block_to_prove : ℕ → Bool → Option ℕ → Option ℕ → Option ℕ → Outcome ℕ
block_to_prove chain_id l1_inclusion block ethereum_block_1 l2_block_number_on_l1 =
    if l1_inclusion && is_linea_chain chain_id
    then expect l2_block_number_on_l1 unwrap_none
    else if is_ethereum_chain chain_id || (is_opstack_chain chain_id && l1_inclusion)
    then expect ethereum_block_1 unwrap_none
    else expect block unwrap_none

module _ {X : Externals} (N : Network X) where
  -- The chain and the URL of the linking blocks: Ethereum's for an OpStack chain with L1 inclusion.
  unfoldable pub linking_chain : ℕ → String → Bool → Bool → Outcome (ℕ × String)
  linking_chain chain_id rpc_url l1_inclusion fallback =
      if is_opstack_chain chain_id && l1_inclusion
      then (do
        let is_mainnet = chain_id == optimism_chain_id || chain_id == base_chain_id
        url ← get_rpc_url N "ETHEREUM" fallback (if is_mainnet then false else true)
        ok (if is_mainnet then ethereum_chain_id else ethereum_sepolia_chain_id, url))
      else ok (chain_id, rpc_url)

  -- The tuple that is serialized, as the guest reads it.
  unfoldable pub get_request :
      List Address → List Address → List ℕ → ℕ → Bool → Bool → Outcome (Request X)
  get_request users markets target_chain_ids chain_id l1_inclusion fallback = do
    let is_sepolia = is_sepolia_chain chain_id
    (chain_name, is_testnet) ← get_chain_params chain_id
    rpc_url ← get_rpc_url N chain_name fallback is_testnet
    fetched ←
        get_sequencer_commitments_and_blocks N chain_id rpc_url is_sepolia l1_inclusion fallback
    l1 ←
        get_l1block_call_inputs_and_l1_block_numbers N chain_id is_sepolia l1_inclusion
          fetched.block fetched.block_2 fallback
    (env_input_l1_inclusion, l2_block_number_on_l1) ←
        get_env_input_for_l1_inclusion_and_l2_block_number N chain_id is_sepolia l1_inclusion
          l1.ethereum_block_1 fallback
    block ←
        block_to_prove chain_id l1_inclusion fetched.block l1.ethereum_block_1 l2_block_number_on_l1
    (linking_chain_id, linking_url) ← linking_chain chain_id rpc_url l1_inclusion fallback
    blocks ← get_linking_blocks N linking_chain_id linking_url block
    (call_input, call_input_op) ←
        get_proof_data_call_input N chain_id rpc_url block users markets target_chain_ids
          l1_inclusion fallback
    ok (record {
      env_input = call_input;
      chain_id = chain_id;
      account = users;
      asset = markets;
      target_chain_ids = target_chain_ids;
      sequencer_commitment = fetched.commitment;
      env_op_input = l1.l1_block_call_input_1;
      linking_blocks = blocks;
      env_eth_input = env_input_l1_inclusion;
      op_evm_input = call_input_op;
      sequencer_commitment_opstack_2 = fetched.commitment_2;
      env_op_input_2 = l1.l1_block_call_input_2;
    })

  unfoldable pub get_proof_data_zkvm_input :
      List Address → List Address → List ℕ → ℕ → Bool → Bool → Outcome Bytes
  get_proof_data_zkvm_input users markets target_chain_ids chain_id l1_inclusion fallback = do
    request ← get_request users markets target_chain_ids chain_id l1_inclusion fallback
    expect_ok (N.request_to_vec request) serialization_failed
