-- ===== src/Tests/Finalized.antt =====
-- An example of an end-to-end run with L1 inclusion, in the sample world.
use malda_lending_fuzz.Prelude.{◌≡◌, refl, arith, true, false, some, none, [], ◌∷◌, ok, ok_unique}
use malda_lending_fuzz.Bytes.{to_be_bytes, from_be_bytes, slice, sub_uint, add_uint}
use malda_lending_fuzz.Constants.{optimism_chain_id, ethereum_chain_id}
use malda_lending_fuzz.Externals.Sample.{sample}
use malda_lending_fuzz.Types.Contracts.{is_defender_wins}
use malda_lending_fuzz.Types.Commitment.{try_from}
use malda_lending_fuzz.Validators.Batch.{batch_params}
use malda_lending_fuzz.Validators.BlockHash.{ethereum_of_opstack}
use malda_lending_fuzz.Validators.Opstack.Laws.{via_opstack_iff}
use malda_lending_fuzz.Validators.DisputeGame.{time_has_passed}
use malda_lending_fuzz.Validators.ProofCall.{Request}
use malda_lending_fuzz.Journal.Entries.{entries_of}
use malda_lending_fuzz.Host.Chains.{
  get_chain_params, config_portal, get_portal_address, is_linea_chain, is_opstack_chain,
  is_ethereum_chain, get_default_sequencer_chain, get_reorg_protection_depth,
}
use malda_lending_fuzz.Host.Network.{
  get_rpc_url, suffixes, get_env_var, eth_env, op_env, get_opstack_config,
  get_sequencer_request_url, call_preflight, env_into_input,
}
use malda_lending_fuzz.Host.Sequencer.{
  get_sequencer_commitments_and_blocks, committed_block, get_current_sequencer_commitment,
}
use malda_lending_fuzz.Host.L1Block.{
  get_l1block_call_inputs_and_l1_block_numbers, get_l1block_call_input,
}
use malda_lending_fuzz.Host.DisputeGame.{
  get_op_env_commitment, check_dispute_game, get_env_input_for_opstack_dispute_game,
}
use malda_lending_fuzz.Host.L1Inclusion.{
  l1_block_for, get_env_input_for_l1_inclusion_and_l2_block_number,
}
use malda_lending_fuzz.Host.LinkingBlocks.{
  fetch_header, get_linking_blocks, join_headers, range_inclusive, numbers_from, join,
}
use malda_lending_fuzz.Host.CallInput.{
  host_call, host_call_data, host_multicall, get_proof_data_call_input, call_input_by_game,
}
use malda_lending_fuzz.Host.ZkvmInput.{get_request, block_to_prove, linking_chain, is_sepolia_chain}
use malda_lending_fuzz.Poc.{run_e2e}
use malda_lending_fuzz.Poc.Accepted.{RoundTrips}
use malda_lending_fuzz.Poc.Game.{GameChecked, GameAnswered}
use malda_lending_fuzz.Poc.Finalized.{Settling}
use malda_lending_fuzz.Poc.Finalized.Passes.{Settled, run_e2e_finalized}
use malda_lending_fuzz.Tests.Inputs.{network, commitment, answer}
use malda_lending_fuzz.Tests.Games.{replays}
use malda_lending_fuzz.Tests.Market.{
  user, market, target, amount, announced, recorded, vouched, optimism_known, ethereum_known,
}

settling :
    Settling network user market target optimism_chain_id false "RPC_URL_OPTIMISM"
      "RPC_URL_ETHEREUM" ethereum_chain_id 2 100
unfolding get_chain_params get_rpc_url suffixes get_env_var is_opstack_chain ethereum_of_opstack
    is_sepolia_chain
settling = record {
  name = "OPTIMISM";
  testnet = false;
  own_depth = 2;
  opstack = refl;
  params = refl;
  endpoint = refl;
  ethereum = refl;
  ethereum_endpoint = refl;
  known = ethereum_known;
  deep = omega arith;
  small = omega arith;
  own_known = optimism_known;
  own_deep = omega arith;
}

checked : GameChecked network user market target optimism_chain_id false 98 98 98 9 98
unfolding get_opstack_config get_chain_params get_rpc_url suffixes get_env_var config_portal eth_env
    op_env get_op_env_commitment call_preflight env_into_input check_dispute_game get_portal_address
    is_defender_wins time_has_passed
checked = record {
  l1_url = _;
  l2_url = _;
  name = _;
  portal = _;
  config = refl;
  built = refl;
  found = refl;
  checked = refl;
  taken = refl;
}

answered : GameAnswered network user market target optimism_chain_id false (answer ∷ []) 9
unfolding get_opstack_config get_chain_params get_rpc_url suffixes get_env_var config_portal op_env
    batch_params host_call
answered = record {
  l1_url = _;
  l2_url = _;
  name = _;
  portal = _;
  host_env = 9;
  host_env_called = 9;
  config = refl;
  built = refl;
  called = refl;
  taken = refl;
}

settled :
    Settled network user market target optimism_chain_id ethereum_chain_id false "RPC_URL_OPTIMISM"
      "RPC_URL_ETHEREUM" 2 100
      (λ n. n)
      (λ n. n)
      amount
unfolding is_sepolia_chain get_default_sequencer_chain eth_env fetch_header batch_params host_call
settled = record {
  settling = settling;
  serves = λ n within. (refl, omega arith, refl);
  commitment = commitment;
  opstack_block = 100;
  l1_input = 100;
  announced = announced;
  recorded = recorded;
  vouched =
      (via_opstack_iff sample (some commitment) (some 100) ethereum_chain_id none none 100).0
        vouched;
  start = 98;
  end = 98;
  game = 9;
  game_input = 98;
  checked = checked;
  answers = _;
  op_input = 9;
  answered = answered;
  env = 98;
  op_env = 9;
  rebuilt = record {
    built = refl;
    seal = refl;
    replays = replays 98;
    op_built = refl;
    same_game = refl;
    repeated = refl;
    decoded = (refl, tt);
  };
}

abbrev finalized : Request sample
finalized = record {
  env_input = none;
  chain_id = optimism_chain_id;
  account = user;
  asset = market;
  target_chain_ids = target;
  sequencer_commitment = some commitment;
  env_op_input = some 100;
  linking_blocks = 99 ∷ 100 ∷ [];
  env_eth_input = some 98;
  op_evm_input = some 9;
  sequencer_commitment_opstack_2 = none;
  env_op_input_2 = none;
}

prepared : get_request network user market target optimism_chain_id true false ≡ ok finalized
unfolding get_request get_chain_params get_rpc_url suffixes get_env_var
    get_sequencer_commitments_and_blocks is_opstack_chain is_ethereum_chain is_linea_chain
    committed_block get_current_sequencer_commitment get_sequencer_request_url
    get_default_sequencer_chain get_l1block_call_inputs_and_l1_block_numbers get_l1block_call_input
    get_env_input_for_l1_inclusion_and_l2_block_number l1_block_for
    get_env_input_for_opstack_dispute_game get_op_env_commitment check_dispute_game
    get_opstack_config config_portal get_portal_address is_defender_wins time_has_passed op_env
    block_to_prove linking_chain is_sepolia_chain get_linking_blocks get_proof_data_call_input
    call_input_by_game host_multicall host_call host_call_data batch_params to_be_bytes
    from_be_bytes call_preflight env_into_input get_reorg_protection_depth sub_uint add_uint
    join_headers range_inclusive numbers_from join fetch_header eth_env try_from slice
prepared = refl

serde :
    RoundTrips network user market target optimism_chain_id "RPC_URL_OPTIMISM"
      (λ _. ok finalized)
      true
      false
serde r e = (r.chain_id ∷ [], refl, let same = ok_unique prepared e in cc)

run_e2e_finalized_example :
    run_e2e network (λ _. ok finalized) user market target optimism_chain_id true false
    ≡ ok (entries_of sample optimism_chain_id true (batch_params user market target) amount)
run_e2e_finalized_example =
    run_e2e_finalized network user market target optimism_chain_id ethereum_chain_id
      (λ _. ok finalized) false "RPC_URL_OPTIMISM" "RPC_URL_ETHEREUM" 2 100 (λ n. n) (λ n. n) amount
      settled serde (omega arith, tt)
