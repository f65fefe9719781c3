-- ===== src/Poc/Finalized/Rebuilt.antt =====
-- What the guest builds of the inputs of a run with L1 inclusion: the environments that replay the
-- host's checks and repeat its multicall.
use malda_lending_fuzz.Prelude.{
  ℕ, ◌≡◌, refl, ap, arith, Bool, true, false, ◌||◌, ◌==◌, none, some, List, [], map, ok,
}
use malda_lending_fuzz.Bytes.{Address, B256, U256}
use malda_lending_fuzz.Constants.{
  multicall, optimism_chain_id, base_chain_id, optimism_sepolia_chain_id, base_sepolia_chain_id,
  linea_chain_id, linea_sepolia_chain_id,
}
use malda_lending_fuzz.Externals.{Externals, eth, op, eth_mainnet_chain_spec, op_mainnet_chain_spec}
use malda_lending_fuzz.Types.Contracts.{CallResult, aggregate3}
use malda_lending_fuzz.Types.Commitment.{SequencerCommitment}
use malda_lending_fuzz.Validators.Opstack.Laws.{VouchedBy}
use malda_lending_fuzz.Validators.DisputeGame.Sound.{dispute_game_iff}
use malda_lending_fuzz.Validators.BlockHash.{get_validated_block_hash, ethereum_of_opstack}
use malda_lending_fuzz.Validators.BlockHash.Laws.{get_validated_block_hash_opstack_iff}
use malda_lending_fuzz.Validators.Params.{is_opstack}
use malda_lending_fuzz.Validators.Batch.{batch_params, batch_call_get_proof_data}
use malda_lending_fuzz.Journal.Entries.{Decoded, entries_of, encode_results-entries_of}
use malda_lending_fuzz.Host.Chains.{is_opstack_chain}
use malda_lending_fuzz.Host.Network.{Network}
use malda_lending_fuzz.Host.DisputeGame.Repeated.{Replays, check_dispute_game-validate}
use malda_lending_fuzz.Host.CallInput.{host_call}
use malda_lending_fuzz.Host.CallInput.CallData.{FitU32, host_calls_lem}
use malda_lending_fuzz.Poc.Game.{GameChecked}

-- The guest takes the chain for an OpStack chain as the host does.
pub guest_opstack :
    (chain_id : ℕ)
    → is_opstack_chain chain_id ≡ true
    → (is_opstack chain_id ≡ true)
      × ((chain_id == optimism_chain_id
            || chain_id == base_chain_id
            || chain_id == base_sepolia_chain_id
            || chain_id == optimism_sepolia_chain_id)
          ≡ true)
      × ((chain_id == linea_chain_id || chain_id == linea_sepolia_chain_id) ≡ false)
unfolding is_opstack_chain
guest_opstack chain_id opstack = (ground arith, ground arith, ground arith)

module _ {X : Externals} (N : Network X) (users markets : List Address) (target_chain_ids : List ℕ)
    (chain_id ethereum_chain : ℕ) where
  -- What the guest builds of the two inputs: Ethereum's environment at the block with this hash, which
  -- replays the host's checks, and the environment of the game that the host has checked, which
  -- answers the multicall as it was answered, so that each answer decodes.
  pub record Rebuilt (block_hash : B256) (start end : N.HostEnv eth) (game : X.Commitment)
      (game_input : X.EvmInput eth) (env : X.EvmEnv eth) (op_input : X.EvmInput op)
      (op_env : X.EvmEnv op) (answers : List CallResult) (amounts : List (U256 × U256))
      : Type 0 where
    pub built : X.into_env eth game_input eth_mainnet_chain_spec ≡ ok env
    pub seal : X.env_seal env ≡ block_hash
    pub replays : Replays N start end env
    pub op_built : X.into_env op op_input op_mainnet_chain_spec ≡ ok op_env
    pub same_game : X.env_commitment op op_env ≡ game
    pub repeated :
        X.call op op_env multicall
          (aggregate3 (map host_call (batch_params users markets target_chain_ids)))
        ≡ ok answers
    pub decoded :
        Decoded X chain_id true (batch_params users markets target_chain_ids) answers amounts

  pub finalized_validated :
      (block_hash : B256) (start end : N.HostEnv eth) (game : X.Commitment)
      (game_input : X.EvmInput eth) (env : X.EvmEnv eth) (op_input : X.EvmInput op)
      (op_env : X.EvmEnv op) (answers : List CallResult) (amounts : List (U256 × U256))
      (fallback : Bool) (block : ℕ) (commitment : SequencerCommitment X) (l1_input : X.EvmInput eth)
      (header : X.Header)
      → is_opstack_chain chain_id ≡ true
      → ethereum_of_opstack chain_id ≡ ok ethereum_chain
      → GameChecked N users markets target_chain_ids chain_id fallback block start end game
          game_input
      → Rebuilt block_hash start end game game_input env op_input op_env answers amounts
      → VouchedBy X (some commitment) (some l1_input) ethereum_chain (X.hash_slow header)
      → get_validated_block_hash X chain_id
          (X.env_header env)
          (some commitment)
          (some l1_input)
          (some game_input)
          header
          true
          (some (X.env_commitment op op_env))
          none
          none
        ≡ ok (X.hash_slow header)
  unfolding get_validated_block_hash
  finalized_validated block_hash start end game game_input env op_input op_env answers amounts
        fallback block commitment l1_input header opstack ethereum checked r vouched =
      let (_, guest, no_linea) = guest_opstack chain_id opstack in
      let passes =
        check_dispute_game-validate N start end env r.replays chain_id game checked.checked in
      rw (no_linea, guest)
        ((get_validated_block_hash_opstack_iff X chain_id (some commitment) (some l1_input)
            (some game_input) header (some (X.env_commitment op op_env)) none none true
            (X.hash_slow header)).1
          (
            record {
              ethereum_chain = ethereum_chain;
              ethereum_known = ethereum;
              vouched = vouched;
              eth_input = game_input;
              eth_given = refl;
              eth_env = env;
              eth_built = r.built;
              op_commitment = game;
              op_given = ap some r.same_game;
              game = (dispute_game_iff X chain_id env game).0 passes;
            },
            refl,
          ))

  pub batch_call-finalized :
      (block_hash : B256) (start end : N.HostEnv eth) (game : X.Commitment)
      (game_input : X.EvmInput eth) (env : X.EvmEnv eth) (op_input : X.EvmInput op)
      (op_env : X.EvmEnv op) (answers : List CallResult) (amounts : List (U256 × U256))
      → FitU32 target_chain_ids
      → Rebuilt block_hash start end game game_input env op_input op_env answers amounts
      → batch_call_get_proof_data X chain_id true op users markets target_chain_ids op_env []
        ≡ ok (entries_of X chain_id true (batch_params users markets target_chain_ids) amounts)
  unfolding batch_call_get_proof_data
  batch_call-finalized block_hash start end game game_input env op_input op_env answers amounts fit
        r =
      let called = rw (host_calls_lem users markets target_chain_ids fit) at r.repeated in
      rw called (
        encode_results-entries_of X chain_id true (batch_params users markets target_chain_ids)
          answers amounts [] r.decoded)
