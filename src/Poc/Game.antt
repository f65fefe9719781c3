-- ===== src/Poc/Game.antt =====
-- The dispute game of a run with L1 inclusion: the checks that the host makes of it and the multicall
-- in its state.
use malda_lending_fuzz.Prelude.{
  ℕ, ◌-◌, ◌≤◌, ◌≡◌, refl, ◌∙◌, Bool, true, false, not, if◌then◌else◌, String, none, some, List, map,
  ok,
}
use malda_lending_fuzz.Bytes.{Address}
use malda_lending_fuzz.Bytes.Laws.{sub_uint-eq-ok}
use malda_lending_fuzz.Constants.{
  multicall, reorg_protection_depth_ethereum, reorg_protection_depth_ethereum_sepolia,
}
use malda_lending_fuzz.Externals.{Externals, eth, op, eth_mainnet_chain_spec}
use malda_lending_fuzz.Types.Contracts.{CallResult, aggregate3}
use malda_lending_fuzz.Validators.ChainLength.{required_depth}
use malda_lending_fuzz.Validators.Batch.{batch_params}
use malda_lending_fuzz.Host.Chains.{is_opstack_chain, is_linea_chain}
use malda_lending_fuzz.Host.Chains.Agreement.{get_reorg_protection_depth_lem}
use malda_lending_fuzz.Host.Network.{
  Network, at_number, for_proof_data, get_rpc_url, get_opstack_config, eth_env, op_env,
  call_preflight, env_into_input,
}
use malda_lending_fuzz.Host.DisputeGame.{
  get_op_env_commitment, check_dispute_game, get_env_input_for_opstack_dispute_game,
}
use malda_lending_fuzz.Host.L1Inclusion.{
  l1_block_for, get_env_input_for_l1_inclusion_and_l2_block_number,
}
use malda_lending_fuzz.Host.CallInput.{
  host_call, host_multicall, call_input_by_game, get_proof_data_call_input,
}
use malda_lending_fuzz.Host.ZkvmInput.{is_sepolia_chain}

module _ {X : Externals} (N : Network X) (users markets : List Address) (target_chain_ids : List ℕ)
    (chain_id : ℕ) (fallback : Bool) where
  -- The dispute game that the host has checked on Ethereum, and the input taken of the checks.
  pub record GameChecked (block : ℕ) (start end : N.HostEnv eth) (commitment : X.Commitment)
      (input : X.EvmInput eth) : Type 0 where
    pub l1_url : String
    pub l2_url : String
    pub name : String
    pub portal : Address
    pub config : get_opstack_config N chain_id fallback ≡ ok (l1_url, portal, l2_url, name)
    pub built : eth_env N l1_url (at_number block) eth_mainnet_chain_spec ≡ ok start
    pub found : get_op_env_commitment N chain_id fallback ≡ ok commitment
    pub checked : check_dispute_game N chain_id start commitment ≡ ok end
    pub taken : N.into_input eth end ≡ ok input

  -- The multicall in the state of a finalized game; the configuration is asked for with `!fallback`.
  pub record GameAnswered (answers : List CallResult) (input : X.EvmInput op) : Type 0 where
    pub l1_url : String
    pub l2_url : String
    pub name : String
    pub portal : Address
    pub host_env : N.HostEnv op
    pub host_env_called : N.HostEnv op
    pub config : get_opstack_config N chain_id (not fallback) ≡ ok (l1_url, portal, l2_url, name)
    pub built : op_env N for_proof_data portal l1_url l2_url ≡ ok host_env
    pub called :
        N.preflight op host_env multicall
          (aggregate3 (map host_call (batch_params users markets target_chain_ids)))
        ≡ ok (host_env_called, answers)
    pub taken : N.into_input op host_env_called ≡ ok input

  pub call_input-GameAnswered :
      (url : String) (block own_depth : ℕ) (answers : List CallResult) (input : X.EvmInput op)
      → is_opstack_chain chain_id ≡ true
      → required_depth chain_id ≡ ok own_depth
      → own_depth ≤ block
      → GameAnswered answers input
      → get_proof_data_call_input N chain_id url block users markets target_chain_ids true fallback
        ≡ ok (none, some input)
  unfolding get_proof_data_call_input call_input_by_game host_multicall call_preflight
      env_into_input
  call_input-GameAnswered url block own_depth answers input opstack known deep g =
      rw
        (
          (get_reorg_protection_depth_lem chain_id).0 ∙ known,
          sub_uint-eq-ok X.overflow_checks 64 block own_depth deep,
          opstack,
          g.config,
          g.built,
          g.called,
          g.taken,
        )
        refl

  pub l1_inclusion-GameChecked :
      (ethereum_url : String) (top depth : ℕ) (start end : N.HostEnv eth)
      (commitment : X.Commitment) (input : X.EvmInput eth)
      → is_opstack_chain chain_id ≡ true
      → is_linea_chain chain_id ≡ false
      → (if is_sepolia_chain chain_id
          then reorg_protection_depth_ethereum_sepolia
          else reorg_protection_depth_ethereum)
        ≡ depth
      → get_rpc_url N "ETHEREUM" fallback (is_sepolia_chain chain_id) ≡ ok ethereum_url
      → depth ≤ top
      → GameChecked (top - depth) start end commitment input
      → get_env_input_for_l1_inclusion_and_l2_block_number N chain_id
          (is_sepolia_chain chain_id)
          true
          (some top)
          fallback
        ≡ ok (some input, some 1)
  unfolding get_env_input_for_l1_inclusion_and_l2_block_number l1_block_for
      get_env_input_for_opstack_dispute_game env_into_input
  l1_inclusion-GameChecked ethereum_url top depth start end commitment input opstack no_linea
        its_depth endpoint deep g =
      rw
        (
          endpoint,
          no_linea,
          its_depth,
          sub_uint-eq-ok X.overflow_checks 64 top depth deep,
          opstack,
          g.config,
          g.built,
          g.found,
          g.checked,
          g.taken,
        )
        refl
