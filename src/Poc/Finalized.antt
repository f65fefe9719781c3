-- ===== src/Poc/Finalized.antt =====
-- The request of an OpStack chain with L1 inclusion, as the host prepares it: the linking blocks are
-- those of Ethereum, and the queries are answered in the state that a dispute game has settled.
pub mod Rebuilt
pub mod Passes
use malda_lending_fuzz.Prelude.{
  ℕ, ◌-◌, ◌≤◌, ◌<◌, ◌^◌, ◌≡◌, refl, sym, ap, ◌∙◌, arith, Bool, true, false, not, ◌&&◌, ◌||◌, ◌==◌,
  if◌then◌else◌, String, Option, none, some, List, map, ok, ◌>>=◌,
}
use malda_lending_fuzz.Bytes.{Bytes, Address, B256, sub_uint}
use malda_lending_fuzz.Bytes.Laws.{sub_uint-eq-ok}
use malda_lending_fuzz.Constants.{
  multicall, ethereum_chain_id, ethereum_sepolia_chain_id, optimism_chain_id, base_chain_id,
  optimism_sepolia_chain_id, base_sepolia_chain_id, linea_sepolia_chain_id,
  reorg_protection_depth_ethereum, reorg_protection_depth_ethereum_sepolia,
}
use malda_lending_fuzz.Externals.{Externals, eth, op, eth_mainnet_chain_spec, op_mainnet_chain_spec}
use malda_lending_fuzz.Types.Contracts.{CallResult, aggregate3}
use malda_lending_fuzz.Types.Commitment.{SequencerCommitment}
use malda_lending_fuzz.Validators.ChainLength.{required_depth}
use malda_lending_fuzz.Validators.BlockHash.{ethereum_of_opstack}
use malda_lending_fuzz.Validators.ProofCall.{Request}
use malda_lending_fuzz.Validators.Batch.{batch_params}
use malda_lending_fuzz.Host.Chains.{
  get_chain_params, is_opstack_chain, is_linea_chain, is_ethereum_chain, get_reorg_protection_depth,
  get_default_sequencer_chain,
}
use malda_lending_fuzz.Host.Chains.Agreement.{get_reorg_protection_depth_lem}
use malda_lending_fuzz.Host.Network.{
  Network, at_number, for_proof_data, get_rpc_url, get_opstack_config, eth_env, op_env,
  call_preflight, env_into_input,
}
use malda_lending_fuzz.Host.Sequencer.{get_sequencer_commitments_and_blocks, committed_block}
use malda_lending_fuzz.Host.L1Block.{get_l1block_call_inputs_and_l1_block_numbers}
use malda_lending_fuzz.Host.DisputeGame.{
  get_op_env_commitment, check_dispute_game, get_env_input_for_opstack_dispute_game,
}
use malda_lending_fuzz.Host.L1Inclusion.{
  l1_block_for, get_env_input_for_l1_inclusion_and_l2_block_number,
}
use malda_lending_fuzz.Host.CallInput.{
  host_call, host_multicall, call_input_by_game, get_proof_data_call_input,
}
use malda_lending_fuzz.Host.LinkingBlocks.{get_linking_blocks}
use malda_lending_fuzz.Host.ZkvmInput.{get_request, is_sepolia_chain, block_to_prove, linking_chain}
use malda_lending_fuzz.Poc.Sources.{
  Announced, get_current_sequencer_commitment-Announced, Recorded, get_l1block_call_input-Recorded,
}
use malda_lending_fuzz.Poc.Game.{
  GameChecked, GameAnswered, call_input-GameAnswered, l1_inclusion-GameChecked,
}

-- The tables for the Ethereum chain of an OpStack chain agree.
ethereum_tables :
    (chain_id ethereum_chain depth : ℕ)
    → is_opstack_chain chain_id ≡ true
    → ethereum_of_opstack chain_id ≡ ok ethereum_chain
    → required_depth ethereum_chain ≡ ok depth
    → ((if chain_id == optimism_chain_id || chain_id == base_chain_id then false else true)
        ≡ is_sepolia_chain chain_id)
      × ((if chain_id == optimism_chain_id || chain_id == base_chain_id
            then ethereum_chain_id
            else ethereum_sepolia_chain_id)
          ≡ ethereum_chain)
      × ((if is_sepolia_chain chain_id
            then reorg_protection_depth_ethereum_sepolia
            else reorg_protection_depth_ethereum)
          ≡ depth)
      × (is_linea_chain chain_id ≡ false)
      × (is_ethereum_chain chain_id ≡ false)
unfolding is_opstack_chain ethereum_of_opstack required_depth is_sepolia_chain is_linea_chain
    is_ethereum_chain
ethereum_tables chain_id ethereum_chain depth opstack ethereum known =
    (ground arith, ground arith, ground arith, ground arith, ground arith)

module _ {X : Externals} (N : Network X) (users markets : List Address) (target_chain_ids : List ℕ)
    (chain_id : ℕ) (fallback : Bool) where
  -- The chain, its Ethereum chain and their endpoints and depths are known, and the Ethereum block is
  -- high enough.
  pub record Settling (url ethereum_url : String) (ethereum_chain depth top : ℕ) : Type 0 where
    pub name : String
    pub testnet : Bool
    pub own_depth : ℕ
    pub opstack : is_opstack_chain chain_id ≡ true
    pub params : get_chain_params chain_id ≡ ok (name, testnet)
    pub endpoint : get_rpc_url N name fallback testnet ≡ ok url
    pub ethereum : ethereum_of_opstack chain_id ≡ ok ethereum_chain
    pub ethereum_endpoint :
        get_rpc_url N "ETHEREUM" fallback (is_sepolia_chain chain_id) ≡ ok ethereum_url
    pub known : required_depth ethereum_chain ≡ ok depth
    pub deep : depth ≤ top
    pub small : top < 2 ^ 64
    pub own_known : required_depth chain_id ≡ ok own_depth
    pub own_deep : own_depth ≤ top

  abbrev pub finalized_request :
      SequencerCommitment X
      → (l1_input game_input : X.EvmInput eth) → List X.Header
      → X.EvmInput op
      → Request X
  finalized_request commitment l1_input game_input blocks op_input = record {
    env_input = none;
    chain_id = chain_id;
    account = users;
    asset = markets;
    target_chain_ids = target_chain_ids;
    sequencer_commitment = some commitment;
    env_op_input = some l1_input;
    linking_blocks = blocks;
    env_eth_input = some game_input;
    op_evm_input = some op_input;
    sequencer_commitment_opstack_2 = none;
    env_op_input_2 = none;
  }

  pub get_request-finalized :
      (url ethereum_url : String) (ethereum_chain depth top : ℕ)
      (commitment : SequencerCommitment X) (opstack_block : ℕ)
      (l1_input game_input : X.EvmInput eth) (start end : N.HostEnv eth) (game : X.Commitment)
      (blocks : List X.Header) (answers : List CallResult) (op_input : X.EvmInput op)
      → Settling url ethereum_url ethereum_chain depth top
      → Announced N
          (get_default_sequencer_chain chain_id (is_sepolia_chain chain_id))
          fallback
          commitment
          opstack_block
      → Recorded N
          (if is_sepolia_chain chain_id then optimism_sepolia_chain_id else optimism_chain_id)
          fallback
          opstack_block
          l1_input
          top
      → GameChecked N users markets target_chain_ids chain_id fallback
          (top - depth)
          start
          end
          game
          game_input
      → get_linking_blocks N ethereum_chain ethereum_url top ≡ ok blocks
      → GameAnswered N users markets target_chain_ids chain_id fallback answers op_input
      → get_request N users markets target_chain_ids chain_id true fallback
        ≡ ok (finalized_request commitment l1_input game_input blocks op_input)
  unfolding get_request get_sequencer_commitments_and_blocks committed_block
      get_l1block_call_inputs_and_l1_block_numbers block_to_prove linking_chain
  get_request-finalized url ethereum_url ethereum_chain depth top commitment opstack_block l1_input
        game_input start end game blocks answers op_input c announced recorded checked linked
        answered =
      let (same_net, same_chain, same_depth, no_linea, no_ethereum) =
        ethereum_tables chain_id ethereum_chain depth c.opstack c.ethereum c.known in
      rw
        (
          c.params,
          c.endpoint,
          c.opstack,
          no_ethereum,
          get_current_sequencer_commitment-Announced N _ fallback commitment opstack_block
              announced,
          get_l1block_call_input-Recorded N _ fallback opstack_block l1_input top recorded,
          l1_inclusion-GameChecked N users markets target_chain_ids chain_id fallback ethereum_url
              top depth start end game game_input c.opstack no_linea same_depth c.ethereum_endpoint
              c.deep checked,
          no_linea,
          same_net,
          c.ethereum_endpoint,
          same_chain,
          linked,
          call_input-GameAnswered N users markets target_chain_ids chain_id fallback url top
              c.own_depth answers op_input c.opstack c.own_known c.own_deep answered,
        )
        refl
