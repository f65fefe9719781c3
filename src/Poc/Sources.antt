-- ===== src/Poc/Sources.antt =====
-- The two sources of a block that the host asks over the network: a sequencer's API, and the L1Block
-- contract of an OpStack chain.
use malda_lending_fuzz.Prelude.{ℕ, ◌≡◌, refl, Bool, String, ok}
use malda_lending_fuzz.Bytes.{B256}
use malda_lending_fuzz.Constants.{l1_block_address_opstack}
use malda_lending_fuzz.Externals.{Externals, eth, eth_mainnet_chain_spec}
use malda_lending_fuzz.Types.Contracts.{hash, number}
use malda_lending_fuzz.Types.Payload.{ExecutionPayload}
use malda_lending_fuzz.Types.Commitment.{SequencerCommitment, try_from}
use malda_lending_fuzz.Host.Chains.{get_chain_params}
use malda_lending_fuzz.Host.Network.{
  Network, get_rpc_url, get_sequencer_request_url, eth_env, at_number, call_preflight,
  env_into_input,
}
use malda_lending_fuzz.Host.Sequencer.{get_current_sequencer_commitment}
use malda_lending_fuzz.Host.L1Block.{get_l1block_call_input}

module _ {X : Externals} (N : Network X) (chain_id : ℕ) (fallback : Bool) where
  -- The API of the chain's sequencer answers with a commitment, whose payload is of the block.
  pub record Announced (commitment : SequencerCommitment X) (block : ℕ) : Type 0 where
    pub name : String
    pub testnet : Bool
    pub request_url : String
    pub payload : ExecutionPayload
    pub params : get_chain_params chain_id ≡ ok (name, testnet)
    pub endpoint : get_sequencer_request_url N name fallback testnet ≡ ok request_url
    pub answered : N.get_json request_url ≡ ok commitment
    pub decoded : try_from X commitment ≡ ok (ok payload)
    pub numbered : payload.block_number ≡ block

  pub get_current_sequencer_commitment-Announced :
      (commitment : SequencerCommitment X) (block : ℕ)
      → Announced commitment block
      → get_current_sequencer_commitment N chain_id fallback ≡ ok (commitment, block)
  unfolding get_current_sequencer_commitment
  get_current_sequencer_commitment-Announced commitment block a =
      rw (a.params, a.endpoint, a.answered, a.decoded, a.numbered) refl

  -- The L1Block contract of the chain answers at the block: with a hash, in the call that the input is
  -- taken of, and with a block number.
  pub record Recorded (block : ℕ) (input : X.EvmInput eth) (l1_block : ℕ) : Type 0 where
    pub name : String
    pub testnet : Bool
    pub url : String
    pub host_env : N.HostEnv eth
    pub after_hash : N.HostEnv eth
    pub after_number : N.HostEnv eth
    pub l1_hash : B256
    pub params : get_chain_params chain_id ≡ ok (name, testnet)
    pub endpoint : get_rpc_url N name fallback testnet ≡ ok url
    pub built : eth_env N url (at_number block) eth_mainnet_chain_spec ≡ ok host_env
    pub hash_called :
        N.preflight eth host_env l1_block_address_opstack hash ≡ ok (after_hash, l1_hash)
    pub taken : N.into_input eth after_hash ≡ ok input
    pub number_called :
        N.preflight eth host_env l1_block_address_opstack number ≡ ok (after_number, l1_block)

  pub get_l1block_call_input-Recorded :
      (block : ℕ) (input : X.EvmInput eth) (l1_block : ℕ)
      → Recorded block input l1_block
      → get_l1block_call_input N (at_number block) chain_id fallback ≡ ok (input, l1_block)
  unfolding get_l1block_call_input call_preflight env_into_input
  get_l1block_call_input-Recorded block input l1_block r =
      rw (r.params, r.endpoint, r.built, r.hash_called, r.taken, r.number_called) refl
