-- ===== src/Host/Sequencer.antt =====
-- `get_sequencer_commitments_and_blocks`: the block to start from, and the commitment to it.
use malda_lending_fuzz.Prelude.{
  ℕ, Bool, not, ◌&&◌, ◌||◌, if◌then◌else◌, String, Option, none, some, Outcome, ok, err, ◌>>=◌,
  expect_ok, invalid_chain_id, commitment_not_fetched, payload_not_converted,
}
use malda_lending_fuzz.Externals.{Externals, eth_mainnet_chain_spec}
use malda_lending_fuzz.Types.Commitment.{SequencerCommitment, try_from}
use malda_lending_fuzz.Host.Chains.{
  get_chain_params, is_opstack_chain, is_linea_chain, is_ethereum_chain,
  get_default_sequencer_chain,
}
use malda_lending_fuzz.Host.Network.{Network, get_sequencer_request_url, eth_env, latest}

pub record CommitmentsAndBlocks (X : Externals) : Type 0 where
  pub block : Option ℕ
  pub commitment : Option (SequencerCommitment X)
  pub block_2 : Option ℕ
  pub commitment_2 : Option (SequencerCommitment X)

module _ {X : Externals} (N : Network X) where
  -- One panic stands for those of the request and of its parsing.
  unfoldable pub get_current_sequencer_commitment : ℕ → Bool → Outcome (SequencerCommitment X × ℕ)
  get_current_sequencer_commitment chain_id fallback = do
    (chain_name, is_testnet) ← get_chain_params chain_id
    req ← get_sequencer_request_url N chain_name fallback is_testnet
    commitment ← expect_ok (N.get_json req) commitment_not_fetched
    decoded ← try_from X commitment
    payload ← expect_ok decoded payload_not_converted
    ok (commitment, payload.block_number)

  -- The branch for a chain whose block a commitment gives.
  unfoldable pub committed_block : ℕ → Bool → Outcome (CommitmentsAndBlocks X)
  committed_block chain_id fallback = do
    (commitment, block) ← get_current_sequencer_commitment chain_id fallback
    ok (record {
      block = some block;
      commitment = some commitment;
      block_2 = none;
      commitment_2 = none;
    })

  -- The branch for a Linea chain without L1 inclusion.
  unfoldable pub latest_block : String → Outcome (CommitmentsAndBlocks X)
  latest_block rpc_url = do
    env ← eth_env N rpc_url latest eth_mainnet_chain_spec
    ok (record {
      block = some (X.number (N.header env));
      commitment = none;
      block_2 = none;
      commitment_2 = none;
    })

  unfoldable pub get_sequencer_commitments_and_blocks :
      ℕ → String → Bool → Bool → Bool → Outcome (CommitmentsAndBlocks X)
  get_sequencer_commitments_and_blocks chain_id rpc_url is_sepolia l1_inclusion fallback =
      if is_opstack_chain chain_id
        || is_ethereum_chain chain_id
        || (is_linea_chain chain_id && l1_inclusion)
      then if not l1_inclusion && is_opstack_chain chain_id
        then committed_block chain_id fallback
        else committed_block (get_default_sequencer_chain chain_id is_sepolia) fallback
      else if is_linea_chain chain_id
      then latest_block rpc_url
      else err invalid_chain_id
