-- ===== src/Host/DisputeGame.antt =====
-- `get_env_input_for_opstack_dispute_game`: the host's own run of the checks on the dispute game,
-- which records the state that the guest will read.
pub mod Repeated
use malda_lending_fuzz.Prelude.{
  ℕ, Bool, not, leb, ◌==◌, Option, some, Outcome, ok, ◌>>=◌, ◌>>◌, assert, game_type_not_respected,
  game_created_before_update, game_not_defender_wins, game_blacklisted, insufficient_time_passed,
  root_claim_mismatch,
}
use malda_lending_fuzz.Constants.{l1_block_address_opstack}
use malda_lending_fuzz.Externals.{Externals, eth, op, eth_mainnet_chain_spec, op_mainnet_chain_spec}
use malda_lending_fuzz.Types.Contracts.{
  is_defender_wins, hash, game_at_index, status, resolved_at, root_claim, dispute_game_factory,
  respected_game_type_updated_at, proof_maturity_delay_seconds, dispute_game_blacklist,
}
use malda_lending_fuzz.Validators.DisputeGame.{time_has_passed}
use malda_lending_fuzz.Host.Chains.{get_portal_address}
use malda_lending_fuzz.Host.Network.{
  Network, at_number, for_l1_inclusion, get_opstack_config, eth_env, op_env, call_preflight,
  env_into_input,
}

module _ {X : Externals} (N : Network X) where
  -- The commitment of the OpStack environment, through an arbitrary call.
  unfoldable pub get_op_env_commitment : ℕ → Bool → Outcome X.Commitment
  get_op_env_commitment chain_id fallback = do
    (l1_rpc_url, optimism_portal, l2_rpc_url, _) ← get_opstack_config N chain_id fallback
    env ← op_env N for_l1_inclusion optimism_portal l1_rpc_url l2_rpc_url
    (env_called, _) ← call_preflight N op env l1_block_address_opstack hash
    input ← env_into_input N op env_called
    guest_env ← X.into_env op input op_mainnet_chain_spec
    ok (X.env_commitment op guest_env)

  -- The checks, on the Ethereum environment: each call leaves the environment that records it.
  unfoldable pub check_dispute_game : ℕ → N.HostEnv eth → X.Commitment → Outcome (N.HostEnv eth)
  check_dispute_game chain_id env_0 op_env_commitment = do
    let game_index = (X.decode_id op_env_commitment).0
    let claimed = X.digest op_env_commitment
    portal ← get_portal_address chain_id
    (env_1, factory_address) ← call_preflight N eth env_0 portal dispute_game_factory
    (env_2, game) ← call_preflight N eth env_1 factory_address (game_at_index game_index)
    assert (game.game_type == 0) game_type_not_respected
    (env_3, updated_at) ← call_preflight N eth env_2 portal respected_game_type_updated_at
    assert (leb updated_at game.created_at) game_created_before_update
    (env_4, game_status) ← call_preflight N eth env_3 game.game_address status
    assert (is_defender_wins game_status) game_not_defender_wins
    (env_5, is_blacklisted) ←
        call_preflight N eth env_4 portal (dispute_game_blacklist game.game_address)
    assert (not is_blacklisted) game_blacklisted
    (env_6, resolved) ← call_preflight N eth env_5 game.game_address resolved_at
    (env_7, delay) ← call_preflight N eth env_6 portal proof_maturity_delay_seconds
    let current_timestamp = X.timestamp (N.header env_7)
    assert (time_has_passed X current_timestamp resolved delay) insufficient_time_passed
    (env_8, root) ← call_preflight N eth env_7 game.game_address root_claim
    assert (root == claimed) root_claim_mismatch
    ok env_8

  -- The second component is a dummy.
  unfoldable pub get_env_input_for_opstack_dispute_game :
      ℕ → ℕ → Bool → Outcome (Option (X.EvmInput eth) × Option ℕ)
  get_env_input_for_opstack_dispute_game chain_id l1_block fallback = do
    (l1_rpc_url, _, _, _) ← get_opstack_config N chain_id fallback
    env ← eth_env N l1_rpc_url (at_number l1_block) eth_mainnet_chain_spec
    op_env_commitment ← get_op_env_commitment chain_id fallback
    env_checked ← check_dispute_game chain_id env op_env_commitment
    input ← env_into_input N eth env_checked
    ok (some input, some 1)
