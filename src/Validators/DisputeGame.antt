-- ===== src/Validators/DisputeGame.antt =====
-- `validate_opstack_dispute_game_commitment`: the checks on the fault dispute game that carries the
-- state of an OpStack chain to Ethereum.
pub mod Sound
use malda_lending_fuzz.Prelude.{
  ℕ, Bool, not, ltb, leb, ◌==◌, if◌then◌else◌, Outcome, ok, err, ◌>>=◌, ◌>>◌, assert,
  invalid_chain_id, game_type_not_respected, game_created_before_update, game_not_defender_wins,
  game_blacklisted, insufficient_time_passed, root_claim_mismatch,
}
use malda_lending_fuzz.Bytes.{Address, U256}
use malda_lending_fuzz.Constants.{
  optimism_chain_id, base_chain_id, optimism_sepolia_chain_id, base_sepolia_chain_id,
  optimism_sepolia_portal, base_sepolia_portal, optimism_portal, base_portal,
}
use malda_lending_fuzz.Externals.{Externals, eth}
use malda_lending_fuzz.Types.Contracts.{
  is_defender_wins, game_at_index, status, resolved_at, root_claim, dispute_game_factory,
  respected_game_type_updated_at, proof_maturity_delay_seconds, dispute_game_blacklist,
}

-- The `match` that selects the portal.
unfoldable pub portal_address : ℕ → Outcome Address
portal_address chain_id =
    if chain_id == optimism_sepolia_chain_id
    then ok optimism_sepolia_portal
    else if chain_id == base_sepolia_chain_id
    then ok base_sepolia_portal
    else if chain_id == optimism_chain_id
    then ok optimism_portal
    else if chain_id == base_chain_id
    then ok base_portal
    else err invalid_chain_id

module _ (X : Externals) where
  -- The condition on the time since the game was resolved, over U256.
  unfoldable pub time_has_passed : ℕ → ℕ → U256 → Bool
  time_has_passed current_timestamp resolved delay =
      ltb (X.u256_sub delay 300) (X.u256_sub current_timestamp resolved)

  unfoldable pub validate_opstack_dispute_game_commitment :
      ℕ → X.EvmEnv eth → X.Commitment → Outcome (Unit {0})
  validate_opstack_dispute_game_commitment chain_id eth_env op_env_commitment = do
    let game_index = (X.decode_id op_env_commitment).0
    let claimed = X.digest op_env_commitment
    portal ← portal_address chain_id
    factory_address ← X.call eth eth_env portal dispute_game_factory
    game ← X.call eth eth_env factory_address (game_at_index game_index)
    assert (game.game_type == 0) game_type_not_respected
    updated_at ← X.call eth eth_env portal respected_game_type_updated_at
    assert (leb updated_at game.created_at) game_created_before_update
    game_status ← X.call eth eth_env game.game_address status
    assert (is_defender_wins game_status) game_not_defender_wins
    is_blacklisted ← X.call eth eth_env portal (dispute_game_blacklist game.game_address)
    assert (not is_blacklisted) game_blacklisted
    resolved ← X.call eth eth_env game.game_address resolved_at
    delay ← X.call eth eth_env portal proof_maturity_delay_seconds
    let current_timestamp = X.timestamp (X.env_header eth_env)
    assert (time_has_passed current_timestamp resolved delay) insufficient_time_passed
    root ← X.call eth eth_env game.game_address root_claim
    assert (root == claimed) root_claim_mismatch
