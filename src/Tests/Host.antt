-- ===== src/Tests/Host.antt =====
-- Examples of the host.
use malda_lending_fuzz.Prelude.{
  ℕ, ◌≡◌, refl, arith, false, not, ◌&&◌, ◌||◌, is_some, List, [], ◌∷◌, ◌++◌, length, ok, err,
  Outcome, task_not_joined, invalid_chain_id,
}
use malda_lending_fuzz.Bytes.{Bytes, Address, to_be_bytes, sub_uint, add_uint}
use malda_lending_fuzz.Constants.{linea_chain_id, base_chain_id}
use malda_lending_fuzz.Externals.Sample.{sample}
use malda_lending_fuzz.Validators.Batch.{batch_params}
use malda_lending_fuzz.Validators.ChainLength.{required_depth, validate_chain_length}
use malda_lending_fuzz.Host.Chains.{
  is_opstack_chain, is_linea_chain, is_ethereum_chain, get_reorg_protection_depth, get_chain_params,
}
use malda_lending_fuzz.Host.LinkingBlocks.{
  get_linking_blocks, fetch_header, join_headers, range_inclusive, numbers_from, join,
}
use malda_lending_fuzz.Host.LinkingBlocks.Window.{Serves, get_linking_blocks-validate_chain_length}
use malda_lending_fuzz.Host.CallInput.{
  host_multicall, get_proof_data_call_input, call_input_by_block, call_input_by_game,
  final_chain_url, host_call, host_call_data,
}
use malda_lending_fuzz.Host.ZkvmInput.{
  get_proof_data_zkvm_input, get_request, block_to_prove, linking_chain, is_sepolia_chain,
}
use malda_lending_fuzz.Host.ZkvmInput.Prepared.{get_request-inputs}
use malda_lending_fuzz.Host.Session.{
  spawn_all, task_at, indices_below, run_task, expected_inputs, run_tasks, exec_input,
  get_proof_data_exec, get_proof_data_prove, joined_inputs,
}
use malda_lending_fuzz.Host.Session.Joined.{get_proof_data_prove_failed}
use malda_lending_fuzz.Host.Network.{
  get_rpc_url, suffixes, get_env_var, call_preflight, env_into_input, eth_env,
}
use malda_lending_fuzz.Host.Sequencer.{get_sequencer_commitments_and_blocks, latest_block}
use malda_lending_fuzz.Host.L1Block.{get_l1block_call_inputs_and_l1_block_numbers}
use malda_lending_fuzz.Host.L1Inclusion.{get_env_input_for_l1_inclusion_and_l2_block_number}
use malda_lending_fuzz.Tests.Inputs.{network, linea_request}

pub serves : Serves network "RPC_URL_LINEA" (λ n. n) (λ n. n) 100
unfolding fetch_header eth_env
serves n within = (refl, omega arith, refl)

pub known : required_depth linea_chain_id ≡ ok 2
unfolding required_depth
known = refl

get_linking_blocks-validate_chain_length_example :
    (headers : List ℕ) × (get_linking_blocks network linea_chain_id "RPC_URL_LINEA" 100
      ≡ ok headers)
    × (length headers ≡ 2)
    × (validate_chain_length sample linea_chain_id 98 headers 100 ≡ ok tt)
get_linking_blocks-validate_chain_length_example =
    get_linking_blocks-validate_chain_length network "RPC_URL_LINEA" (λ n. n) (λ n. n)
      linea_chain_id 2 100 serves known (omega arith) (omega arith)

pub prepared :
    get_request network (5 ∷ []) (6 ∷ []) (base_chain_id ∷ []) linea_chain_id false false
    ≡ ok linea_request
unfolding get_request get_chain_params get_rpc_url suffixes get_env_var
    get_sequencer_commitments_and_blocks is_opstack_chain is_ethereum_chain is_linea_chain
    latest_block get_l1block_call_inputs_and_l1_block_numbers
    get_env_input_for_l1_inclusion_and_l2_block_number block_to_prove linking_chain is_sepolia_chain
    get_linking_blocks get_proof_data_call_input call_input_by_block call_input_by_game
    final_chain_url host_multicall host_call host_call_data batch_params to_be_bytes call_preflight
    env_into_input get_reorg_protection_depth sub_uint add_uint join_headers range_inclusive
    numbers_from join fetch_header eth_env
prepared = refl

get_request-inputs_example :
    (linea_request.chain_id ≡ linea_chain_id)
    × (linea_request.account ≡ (5 ∷ []))
    × (linea_request.asset ≡ (6 ∷ []))
    × (linea_request.target_chain_ids ≡ (base_chain_id ∷ []))
    × (is_some linea_request.op_evm_input ≡ (is_opstack_chain linea_chain_id && false))
    × (is_some linea_request.env_input ≡ not (is_opstack_chain linea_chain_id && false))
    × (is_some linea_request.env_op_input ≡ (is_ethereum_chain linea_chain_id || false))
    × (is_some linea_request.env_eth_input ≡ false)
    × (is_some linea_request.sequencer_commitment
        ≡ not (is_linea_chain linea_chain_id && not false))
    × ((is_ethereum_chain linea_chain_id && false) ≡ false)
get_request-inputs_example =
    get_request-inputs network (5 ∷ []) (6 ∷ []) (base_chain_id ∷ []) linea_chain_id false false
      linea_request prepared

-- Two chains, of which the host knows the first only.
abbrev users_of_two : List (List Address)
users_of_two = (5 ∷ []) ∷ (5 ∷ []) ∷ []

abbrev markets_of_two : List (List Address)
markets_of_two = (6 ∷ []) ∷ (6 ∷ []) ∷ []

abbrev targets_of_two : List (List ℕ)
targets_of_two = (base_chain_id ∷ []) ∷ (base_chain_id ∷ []) ∷ []

abbrev front_input : List (Outcome Bytes)
front_input = ok (linea_chain_id ∷ []) ∷ []

ran :
    run_tasks network false false users_of_two markets_of_two targets_of_two
      (linea_chain_id ∷ 7 ∷ [])
    ≡ ok (front_input ++ err invalid_chain_id ∷ [])
unfolding run_tasks spawn_all task_at indices_below run_task get_proof_data_zkvm_input get_request
    get_chain_params get_rpc_url suffixes get_env_var get_sequencer_commitments_and_blocks
    is_opstack_chain is_ethereum_chain is_linea_chain latest_block
    get_l1block_call_inputs_and_l1_block_numbers get_env_input_for_l1_inclusion_and_l2_block_number
    block_to_prove linking_chain is_sepolia_chain get_linking_blocks get_proof_data_call_input
    call_input_by_block call_input_by_game final_chain_url host_multicall host_call host_call_data
    batch_params to_be_bytes call_preflight env_into_input get_reorg_protection_depth sub_uint
    add_uint join_headers range_inclusive numbers_from join fetch_header eth_env
ran = refl

get_proof_data_prove_failed_example :
    (get_proof_data_exec network false false users_of_two markets_of_two targets_of_two
        (linea_chain_id ∷ 7 ∷ [])
      ≡ err task_not_joined)
    × (get_proof_data_prove network false false users_of_two markets_of_two targets_of_two
          (linea_chain_id ∷ 7 ∷ [])
        ≡ network.prove_with_opts ((2 ∷ []) ++ joined_inputs (front_input ++ [])))
get_proof_data_prove_failed_example =
    get_proof_data_prove_failed network false false users_of_two markets_of_two targets_of_two
      (linea_chain_id ∷ 7 ∷ []) front_input [] invalid_chain_id (2 ∷ []) ran refl

executed :
    exec_input network false false
      ((5 ∷ []) ∷ [])
      ((6 ∷ []) ∷ [])
      ((base_chain_id ∷ []) ∷ [])
      (linea_chain_id ∷ [])
    ≡ ok (1 ∷ linea_chain_id ∷ [])
unfolding exec_input expected_inputs run_tasks spawn_all task_at indices_below run_task
    get_proof_data_zkvm_input get_request get_chain_params get_rpc_url suffixes get_env_var
    get_sequencer_commitments_and_blocks is_opstack_chain is_ethereum_chain is_linea_chain
    latest_block get_l1block_call_inputs_and_l1_block_numbers
    get_env_input_for_l1_inclusion_and_l2_block_number block_to_prove linking_chain is_sepolia_chain
    get_linking_blocks get_proof_data_call_input call_input_by_block call_input_by_game
    final_chain_url host_multicall host_call host_call_data batch_params to_be_bytes call_preflight
    env_into_input get_reorg_protection_depth sub_uint add_uint join_headers range_inclusive
    numbers_from join fetch_header eth_env
executed = refl
