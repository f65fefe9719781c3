-- ===== src/Poc/Prepared.antt =====
-- The request that the host prepares without L1 inclusion, where each of its steps is answered.
use malda_lending_fuzz.Prelude.{
  ℕ, ◌&&◌, ◌-◌, ◌≤◌, ◌<◌, ◌^◌, ◌≡◌, refl, ◌∙◌, Bool, true, false, String, none, some, List, map, ok,
}
use malda_lending_fuzz.Bytes.{Address}
use malda_lending_fuzz.Bytes.Laws.{sub_uint-eq-ok}
use malda_lending_fuzz.Constants.{multicall}
use malda_lending_fuzz.Externals.{Externals, eth, linea_mainnet_chain_spec}
use malda_lending_fuzz.Types.Contracts.{CallResult, aggregate3}
use malda_lending_fuzz.Validators.ChainLength.{required_depth}
use malda_lending_fuzz.Validators.ProofCall.{Request}
use malda_lending_fuzz.Validators.Batch.{batch_params}
use malda_lending_fuzz.Host.Chains.{get_chain_params, is_opstack_chain}
use malda_lending_fuzz.Host.Chains.Agreement.{get_reorg_protection_depth_lem}
use malda_lending_fuzz.Host.Network.{
  Network, at_number, get_rpc_url, eth_env, call_preflight, env_into_input,
}
use malda_lending_fuzz.Host.Sequencer.{CommitmentsAndBlocks, get_sequencer_commitments_and_blocks}
use malda_lending_fuzz.Host.L1Block.{L1BlockInputs, get_l1block_call_inputs_and_l1_block_numbers}
use malda_lending_fuzz.Host.L1Inclusion.{get_env_input_for_l1_inclusion_and_l2_block_number}
use malda_lending_fuzz.Host.CallInput.{
  host_call, host_multicall, final_chain_url, call_input_by_block, get_proof_data_call_input,
}
use malda_lending_fuzz.Host.LinkingBlocks.{get_linking_blocks}
use malda_lending_fuzz.Host.ZkvmInput.{get_request, is_sepolia_chain, block_to_prove, linking_chain}
use mathlib.Core.Bool.{and-false}

module _ {X : Externals} (N : Network X) (users markets : List Address) (target_chain_ids : List ℕ)
    (chain_id : ℕ) (url : String) where
  -- The multicall as the endpoint answers it at a block, and the input taken of it.
  pub record Preflighted (block : ℕ) (answers : List CallResult) (input : X.EvmInput eth)
      : Type 0 where
    pub host_env : N.HostEnv eth
    pub host_env_called : N.HostEnv eth
    pub built : eth_env N url (at_number block) linea_mainnet_chain_spec ≡ ok host_env
    pub called :
        N.preflight eth host_env multicall
          (aggregate3 (map host_call (batch_params users markets target_chain_ids)))
        ≡ ok (host_env_called, answers)
    pub taken : N.into_input eth host_env_called ≡ ok input

  -- The chain, its endpoint and the depth of its window are known, and the block is high enough.
  pub record Reachable (name : String) (testnet fallback : Bool) (depth top : ℕ) : Type 0 where
    pub params : get_chain_params chain_id ≡ ok (name, testnet)
    pub endpoint : get_rpc_url N name fallback testnet ≡ ok url
    pub known : required_depth chain_id ≡ ok depth
    pub deep : depth ≤ top
    pub small : top < 2 ^ 64

  final_chain_url-endpoint :
      (name : String) (testnet fallback : Bool) (depth top : ℕ)
      → Reachable name testnet fallback depth top
      → final_chain_url N chain_id url fallback ≡ ok url
  unfolding final_chain_url
  final_chain_url-endpoint name testnet true depth top r = rw (r.params, r.endpoint) refl
  final_chain_url-endpoint name testnet false depth top r = refl

  pub call_input-plain :
      (name : String) (testnet l1_inclusion fallback : Bool) (depth top : ℕ)
      (answers : List CallResult) (input : X.EvmInput eth)
      → Reachable name testnet fallback depth top
      → (is_opstack_chain chain_id && l1_inclusion) ≡ false
      → Preflighted (top - depth) answers input
      → get_proof_data_call_input N chain_id url top users markets target_chain_ids l1_inclusion
          fallback
        ≡ ok (some input, none)
  unfolding get_proof_data_call_input call_input_by_block host_multicall call_preflight
      env_into_input
  call_input-plain name testnet l1_inclusion fallback depth top answers input r by_block p =
      let known = (get_reorg_protection_depth_lem chain_id).0 ∙ r.known in
      let url_is = final_chain_url-endpoint name testnet fallback depth top r in
      rw
        (
          known,
          sub_uint-eq-ok X.overflow_checks 64 top depth r.deep,
          by_block,
          url_is,
          p.built,
          p.called,
          p.taken,
        )
        refl

  -- The request without L1 inclusion.
  abbrev pub plain_request :
      CommitmentsAndBlocks X → L1BlockInputs X → List X.Header → X.EvmInput eth → Request X
  plain_request fetched l1 blocks input = record {
    env_input = some input;
    chain_id = chain_id;
    account = users;
    asset = markets;
    target_chain_ids = target_chain_ids;
    sequencer_commitment = fetched.commitment;
    env_op_input = l1.l1_block_call_input_1;
    linking_blocks = blocks;
    env_eth_input = none;
    op_evm_input = none;
    sequencer_commitment_opstack_2 = fetched.commitment_2;
    env_op_input_2 = l1.l1_block_call_input_2;
  }

  pub get_request-plain :
      (name : String) (testnet fallback : Bool) (depth top : ℕ) (answers : List CallResult)
      (input : X.EvmInput eth) (fetched : CommitmentsAndBlocks X) (l1 : L1BlockInputs X)
      (blocks : List X.Header)
      → Reachable name testnet fallback depth top
      → get_sequencer_commitments_and_blocks N chain_id url
          (is_sepolia_chain chain_id)
          false
          fallback
        ≡ ok fetched
      → get_l1block_call_inputs_and_l1_block_numbers N chain_id
          (is_sepolia_chain chain_id)
          false
          fetched.block
          fetched.block_2
          fallback
        ≡ ok l1
      → block_to_prove chain_id false fetched.block l1.ethereum_block_1 none ≡ ok top
      → get_linking_blocks N chain_id url top ≡ ok blocks
      → Preflighted (top - depth) answers input
      → get_request N users markets target_chain_ids chain_id false fallback
        ≡ ok (plain_request fetched l1 blocks input)
  unfolding get_request linking_chain get_env_input_for_l1_inclusion_and_l2_block_number
  get_request-plain name testnet fallback depth top answers input fetched l1 blocks r e₁ e₂ e₃ e₄
        p =
      rw
        (
          r.params,
          r.endpoint,
          e₁,
          e₂,
          e₃,
          and-false (is_opstack_chain chain_id),
          e₄,
          call_input-plain name testnet false fallback depth top answers input r
              (and-false (is_opstack_chain chain_id)) p,
        )
        refl
