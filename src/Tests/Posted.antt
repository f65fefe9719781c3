-- ===== src/Tests/Posted.antt =====
-- An example of an end-to-end run for Linea with L1 inclusion, in the sample world.
use malda_lending_fuzz.Prelude.{◌≡◌, refl, arith, true, false, some, none, [], ◌∷◌, ok, ok_unique}
use malda_lending_fuzz.Bytes.{to_be_bytes, from_be_bytes, slice, sub_uint, add_uint}
use malda_lending_fuzz.Constants.{l1_message_service_linea, linea_chain_id, ethereum_chain_id}
use malda_lending_fuzz.Externals.Sample.{sample}
use malda_lending_fuzz.Types.Commitment.{try_from}
use malda_lending_fuzz.Validators.Batch.{batch_params}
use malda_lending_fuzz.Validators.Opstack.Laws.{via_opstack_iff}
use malda_lending_fuzz.Validators.ProofCall.{Request}
use malda_lending_fuzz.Journal.Entries.{entries_of}
use malda_lending_fuzz.Host.Chains.{
  get_chain_params, is_linea_chain, is_opstack_chain, is_ethereum_chain,
  get_default_sequencer_chain, get_reorg_protection_depth,
}
use malda_lending_fuzz.Host.Network.{
  get_rpc_url, suffixes, get_env_var, eth_env, get_sequencer_request_url, call_preflight,
  env_into_input,
}
use malda_lending_fuzz.Host.Sequencer.{
  get_sequencer_commitments_and_blocks, committed_block, get_current_sequencer_commitment,
}
use malda_lending_fuzz.Host.L1Block.{
  get_l1block_call_inputs_and_l1_block_numbers, get_l1block_call_input,
}
use malda_lending_fuzz.Host.L1Inclusion.{
  l1_block_for, get_env_input_for_l1_inclusion_and_l2_block_number,
}
use malda_lending_fuzz.Host.LinkingBlocks.{
  fetch_header, get_linking_blocks, join_headers, range_inclusive, numbers_from, join,
}
use malda_lending_fuzz.Host.CallInput.{
  host_call, host_call_data, host_multicall, get_proof_data_call_input,
}
use malda_lending_fuzz.Host.ZkvmInput.{get_request, block_to_prove, linking_chain, is_sepolia_chain}
use malda_lending_fuzz.Poc.{run_e2e}
use malda_lending_fuzz.Poc.Accepted.{RoundTrips}
use malda_lending_fuzz.Poc.Posted.{Posted}
use malda_lending_fuzz.Poc.Posted.Passes.{PostedChain, run_e2e_posted}
use malda_lending_fuzz.Tests.Inputs.{network, commitment, answer}
use malda_lending_fuzz.Tests.Market.{
  user, market, target, amount, announced, recorded, vouched, linea-Answered, sealed,
}
use malda_lending_fuzz.Validators.BlockHash.{ethereum_of_linea}
use malda_lending_fuzz.Validators.Linea.{message_service}
use malda_lending_fuzz.Validators.Linea.Laws.{validate_linea_env_iff}
use malda_lending_fuzz.Host.CallInput.{call_input_by_block, final_chain_url}
use malda_lending_fuzz.Host.L1Inclusion.{message_service_address, get_env_input_for_linea_l1_call}

number_posted :
    Posted network user market target linea_chain_id "RPC_URL_LINEA" false "RPC_URL_ETHEREUM" 100
      100 100
unfolding message_service get_rpc_url suffixes get_env_var is_sepolia_chain eth_env
number_posted = record {
  service = l1_message_service_linea;
  host_env = 100;
  host_env_called = 100;
  known = refl;
  endpoint = refl;
  built = refl;
  called = refl;
  taken = refl;
}

posted_chain :
    PostedChain network user market target linea_chain_id "RPC_URL_LINEA" "LINEA" false false 2 100
      (λ n. n)
      (λ n. n)
      amount
unfolding is_linea_chain ethereum_of_linea is_sepolia_chain get_default_sequencer_chain eth_env
    batch_params host_call
posted_chain = record {
  linea = refl;
  answered = record {
    reachable = linea-Answered.reachable;
    serves = linea-Answered.serves;
    answers = answer ∷ [];
    input = 98;
    env = 98;
    preflighted = record {
      host_env = 98;
      host_env_called = 98;
      built = refl;
      called = refl;
      taken = refl;
    };
    rebuilt = record { built = refl; seal = refl; repeated = refl; decoded = (refl, tt) };
  };
  sealed = (validate_linea_env_iff sample linea_chain_id 100 (omega arith)).0 sealed;
  commitment = commitment;
  opstack_block = 100;
  l1_input = 100;
  ethereum_url = "RPC_URL_ETHEREUM";
  ethereum_chain = ethereum_chain_id;
  ethereum_block = 100;
  ethereum_hash = 100;
  eth_input = 100;
  eth_env = 100;
  ethereum = refl;
  announced = announced;
  recorded = recorded;
  vouched =
      (via_opstack_iff sample (some commitment) (some 100) ethereum_chain_id none none 100).0
        vouched;
  number_posted = number_posted;
  built = refl;
  seal = refl;
  repeated = refl;
  numbered = omega arith;
}

abbrev posted : Request sample
posted = record {
  env_input = some 98;
  chain_id = linea_chain_id;
  account = user;
  asset = market;
  target_chain_ids = target;
  sequencer_commitment = some commitment;
  env_op_input = some 100;
  linking_blocks = 99 ∷ 100 ∷ [];
  env_eth_input = some 100;
  op_evm_input = none;
  sequencer_commitment_opstack_2 = none;
  env_op_input_2 = none;
}

prepared : get_request network user market target linea_chain_id true false ≡ ok posted
unfolding get_request get_chain_params get_rpc_url suffixes get_env_var
    get_sequencer_commitments_and_blocks is_opstack_chain is_ethereum_chain is_linea_chain
    committed_block get_current_sequencer_commitment get_sequencer_request_url
    get_default_sequencer_chain get_l1block_call_inputs_and_l1_block_numbers get_l1block_call_input
    get_env_input_for_l1_inclusion_and_l2_block_number l1_block_for get_env_input_for_linea_l1_call
    message_service_address block_to_prove linking_chain is_sepolia_chain get_linking_blocks
    get_proof_data_call_input call_input_by_block final_chain_url host_multicall host_call
    host_call_data batch_params to_be_bytes from_be_bytes call_preflight env_into_input
    get_reorg_protection_depth sub_uint add_uint join_headers range_inclusive numbers_from join
    fetch_header eth_env try_from slice
prepared = refl

serde :
    RoundTrips network user market target linea_chain_id "RPC_URL_LINEA" (λ _. ok posted) true false
serde r e = (r.chain_id ∷ [], refl, let same = ok_unique prepared e in cc)

run_e2e_posted_example :
    run_e2e network (λ _. ok posted) user market target linea_chain_id true false
    ≡ ok (entries_of sample linea_chain_id true (batch_params user market target) amount)
run_e2e_posted_example =
    run_e2e_posted network user market target linea_chain_id "RPC_URL_LINEA" "LINEA" false false 2
      100 (λ n. n) (λ n. n) amount (omega arith) posted_chain (λ _. ok posted) serde
      (omega arith, tt)
