-- ===== src/Tests/Poc.antt =====
-- Examples of the end-to-end runs, in the sample world.
use malda_lending_fuzz.Prelude.{◌≡◌, refl, arith, false, none, some, [], ◌∷◌, ok, ok_unique}
use malda_lending_fuzz.Bytes.{to_be_bytes, from_be_bytes, slice, sub_uint, add_uint}
use malda_lending_fuzz.Constants.{linea_chain_id, optimism_chain_id, ethereum_chain_id}
use malda_lending_fuzz.Externals.Sample.{sample}
use malda_lending_fuzz.Validators.Batch.{batch_params}
use malda_lending_fuzz.Validators.Linea.Laws.{validate_linea_env_iff}
use malda_lending_fuzz.Host.LinkingBlocks.{
  fetch_header, get_linking_blocks, join_headers, range_inclusive, numbers_from, join,
}
use malda_lending_fuzz.Validators.ProofCall.{Request}
use malda_lending_fuzz.Journal.Entries.{entries_of}
use malda_lending_fuzz.Types.Commitment.{try_from, verify}
use malda_lending_fuzz.Validators.Opstack.{validate_opstack_env, verify_for_chain}
use malda_lending_fuzz.Validators.Opstack.Laws.{validate_opstack_env_iff, via_opstack_iff}
use malda_lending_fuzz.Host.Chains.{
  get_chain_params, is_linea_chain, is_opstack_chain, is_ethereum_chain,
  get_default_sequencer_chain, get_reorg_protection_depth,
}
use malda_lending_fuzz.Host.Sequencer.{
  get_sequencer_commitments_and_blocks, committed_block, get_current_sequencer_commitment,
}
use malda_lending_fuzz.Host.L1Block.{
  get_l1block_call_inputs_and_l1_block_numbers, get_l1block_call_input,
}
use malda_lending_fuzz.Host.L1Inclusion.{get_env_input_for_l1_inclusion_and_l2_block_number}
use malda_lending_fuzz.Host.Network.{
  get_rpc_url, suffixes, get_env_var, eth_env, get_sequencer_request_url, call_preflight,
  env_into_input,
}
use malda_lending_fuzz.Host.CallInput.{
  host_call, host_call_data, host_multicall, get_proof_data_call_input, call_input_by_block,
  call_input_by_game, final_chain_url,
}
use malda_lending_fuzz.Host.ZkvmInput.{get_request, block_to_prove, linking_chain, is_sepolia_chain}
use malda_lending_fuzz.Poc.{run_e2e}
use malda_lending_fuzz.Poc.Accepted.{RoundTrips}
use malda_lending_fuzz.Poc.Passes.{run_e2e_linea, run_e2e_opstack, run_e2e_ethereum}
use malda_lending_fuzz.Tests.Inputs.{network, linea_request, commitment}
use malda_lending_fuzz.Tests.Host.{prepared}
use malda_lending_fuzz.Tests.Market.{
  user, market, target, amount, linea-Answered, optimism-Answered, ethereum-Answered, sealed,
  announced, vouched, recorded,
}

linea_serde :
    RoundTrips network user market target linea_chain_id "RPC_URL_LINEA"
      (λ _. ok linea_request)
      false
      false
linea_serde r e = (r.chain_id ∷ [], refl, let same = ok_unique prepared e in cc)

run_e2e_linea_example :
    run_e2e network (λ _. ok linea_request) user market target linea_chain_id false false
    ≡ ok (entries_of sample linea_chain_id false (batch_params user market target) amount)
unfolding is_linea_chain eth_env
run_e2e_linea_example =
    run_e2e_linea network user market target linea_chain_id "RPC_URL_LINEA" (λ _. ok linea_request)
      "LINEA" false false 2 100 (λ n. n) (λ n. n) amount linea-Answered linea_serde
      (omega arith, tt) 100 refl refl refl
      ((validate_linea_env_iff sample linea_chain_id 100 (omega arith)).0 sealed)

abbrev optimism_request : Request sample
optimism_request = record {
  env_input = some 98;
  chain_id = optimism_chain_id;
  account = user;
  asset = market;
  target_chain_ids = target;
  sequencer_commitment = some commitment;
  env_op_input = none;
  linking_blocks = 99 ∷ 100 ∷ [];
  env_eth_input = none;
  op_evm_input = none;
  sequencer_commitment_opstack_2 = none;
  env_op_input_2 = none;
}

optimism_prepared :
    get_request network user market target optimism_chain_id false false ≡ ok optimism_request
unfolding get_request get_chain_params get_rpc_url suffixes get_env_var
    get_sequencer_commitments_and_blocks is_opstack_chain is_ethereum_chain is_linea_chain
    committed_block get_current_sequencer_commitment get_sequencer_request_url
    get_default_sequencer_chain get_l1block_call_inputs_and_l1_block_numbers get_l1block_call_input
    get_env_input_for_l1_inclusion_and_l2_block_number block_to_prove linking_chain is_sepolia_chain
    get_linking_blocks get_proof_data_call_input call_input_by_block call_input_by_game
    final_chain_url host_multicall host_call host_call_data batch_params to_be_bytes from_be_bytes
    call_preflight env_into_input get_reorg_protection_depth sub_uint add_uint join_headers
    range_inclusive numbers_from join fetch_header eth_env try_from slice
optimism_prepared = refl

optimism_serde :
    RoundTrips network user market target optimism_chain_id "RPC_URL_OPTIMISM"
      (λ _. ok optimism_request)
      false
      false
optimism_serde r e = (r.chain_id ∷ [], refl, let same = ok_unique optimism_prepared e in cc)

abbrev ethereum_request : Request sample
ethereum_request = record {
  env_input = some 98;
  chain_id = ethereum_chain_id;
  account = user;
  asset = market;
  target_chain_ids = target;
  sequencer_commitment = some commitment;
  env_op_input = some 100;
  linking_blocks = 99 ∷ 100 ∷ [];
  env_eth_input = none;
  op_evm_input = none;
  sequencer_commitment_opstack_2 = none;
  env_op_input_2 = none;
}

ethereum_prepared :
    get_request network user market target ethereum_chain_id false false ≡ ok ethereum_request
unfolding get_request get_chain_params get_rpc_url suffixes get_env_var
    get_sequencer_commitments_and_blocks is_opstack_chain is_ethereum_chain is_linea_chain
    committed_block get_current_sequencer_commitment get_sequencer_request_url
    get_default_sequencer_chain get_l1block_call_inputs_and_l1_block_numbers get_l1block_call_input
    get_env_input_for_l1_inclusion_and_l2_block_number block_to_prove linking_chain is_sepolia_chain
    get_linking_blocks get_proof_data_call_input call_input_by_block call_input_by_game
    final_chain_url host_multicall host_call host_call_data batch_params to_be_bytes from_be_bytes
    call_preflight env_into_input get_reorg_protection_depth sub_uint add_uint join_headers
    range_inclusive numbers_from join fetch_header eth_env try_from slice
ethereum_prepared = refl

ethereum_serde :
    RoundTrips network user market target ethereum_chain_id "RPC_URL_ETHEREUM"
      (λ _. ok ethereum_request)
      false
      false
ethereum_serde r e = (r.chain_id ∷ [], refl, let same = ok_unique ethereum_prepared e in cc)

committed : validate_opstack_env sample optimism_chain_id commitment 100 ≡ ok tt
unfolding validate_opstack_env verify_for_chain verify try_from slice to_be_bytes from_be_bytes
committed = refl

run_e2e_opstack_example :
    run_e2e network (λ _. ok optimism_request) user market target optimism_chain_id false false
    ≡ ok (entries_of sample optimism_chain_id false (batch_params user market target) amount)
unfolding is_opstack_chain
run_e2e_opstack_example =
    run_e2e_opstack network user market target optimism_chain_id "RPC_URL_OPTIMISM"
      (λ _. ok optimism_request) "OPTIMISM" false false 2 100 (λ n. n) (λ n. n) amount
      optimism-Answered optimism_serde (omega arith, tt) commitment refl announced
      ((validate_opstack_env_iff sample optimism_chain_id commitment 100).0 committed)

run_e2e_ethereum_example :
    run_e2e network (λ _. ok ethereum_request) user market target ethereum_chain_id false false
    ≡ ok (entries_of sample ethereum_chain_id false (batch_params user market target) amount)
unfolding is_ethereum_chain is_sepolia_chain get_default_sequencer_chain
run_e2e_ethereum_example =
    run_e2e_ethereum network user market target ethereum_chain_id "RPC_URL_ETHEREUM"
      (λ _. ok ethereum_request) "ETHEREUM" false false 2 100 (λ n. n) (λ n. n) amount
      ethereum-Answered ethereum_serde (omega arith, tt) commitment 100 100 refl announced recorded
      ((via_opstack_iff sample (some commitment) (some 100) ethereum_chain_id none none 100).0
        vouched)
