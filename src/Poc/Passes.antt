-- ===== src/Poc/Passes.antt =====
-- The end-to-end runs without L1 inclusion, by the source of the block that is proved.
use malda_lending_fuzz.Prelude.{
  ℕ, ◌≡◌, refl, arith, Bool, true, false, String, Option, none, some, List, Result, Report, ok,
  if◌then◌else◌,
}
use malda_lending_fuzz.Bytes.{Bytes, Address, B256, U256}
use malda_lending_fuzz.Constants.{optimism_chain_id, optimism_sepolia_chain_id}
use malda_lending_fuzz.Externals.{Externals, eth, eth_mainnet_chain_spec}
use malda_lending_fuzz.Types.Commitment.{SequencerCommitment}
use malda_lending_fuzz.Validators.Opstack.Laws.{Commits, VouchedBy, via_opstack_iff}
use malda_lending_fuzz.Validators.Linea.Laws.{Sealed, validate_linea_env_complete}
use malda_lending_fuzz.Validators.BlockHash.{
  get_validated_block_hash, get_validated_block_hash_linea,
}
use malda_lending_fuzz.Validators.BlockHash.Laws.{get_validated_block_hash_opstack_iff}
use malda_lending_fuzz.Validators.Batch.{batch_params}
use malda_lending_fuzz.Validators.ProofCall.{Request}
use malda_lending_fuzz.Journal.Entries.{entries_of}
use malda_lending_fuzz.Host.Chains.{
  is_opstack_chain, is_linea_chain, is_ethereum_chain, get_default_sequencer_chain,
}
use malda_lending_fuzz.Host.Network.{Network, eth_env, latest}
use malda_lending_fuzz.Host.Sequencer.{
  CommitmentsAndBlocks, get_sequencer_commitments_and_blocks, latest_block, committed_block,
}
use malda_lending_fuzz.Host.L1Block.{L1BlockInputs, get_l1block_call_inputs_and_l1_block_numbers}
use malda_lending_fuzz.Host.CallInput.CallData.{FitU32}
use malda_lending_fuzz.Host.LinkingBlocks.Window.{Serves-hash_slow, required_depth_positive}
use malda_lending_fuzz.Host.ZkvmInput.{is_sepolia_chain, block_to_prove}
use malda_lending_fuzz.Poc.{run_e2e}
use malda_lending_fuzz.Poc.Sources.{
  Announced, get_current_sequencer_commitment-Announced, Recorded, get_l1block_call_input-Recorded,
}
use malda_lending_fuzz.Poc.Accepted.{Answered, RoundTrips, run_e2e-accepted}
use malda_lending_fuzz.Poc.Tables.{not_linea, not_opstack, not_l2, opstack_branch, ethereum_branch}

module _ {X : Externals} (N : Network X) (users markets : List Address) (target_chain_ids : List ℕ)
    (chain_id : ℕ) (url : String) (from_slice : Bytes → Result Report (Request X)) (name : String)
    (testnet fallback : Bool) (depth top : ℕ) (header_at : ℕ → X.Header) (hash_at : ℕ → B256)
    (amounts : List (U256 × U256))
    (a : Answered N users markets target_chain_ids chain_id url false name testnet fallback depth
      top header_at hash_at amounts)
    (serde : RoundTrips N users markets target_chain_ids chain_id url from_slice false fallback)
    (fit : FitU32 target_chain_ids) where
  abbrev fetched_of : ℕ → Option (SequencerCommitment X) → CommitmentsAndBlocks X
  fetched_of block commitment = record {
    block = some block;
    commitment = commitment;
    block_2 = none;
    commitment_2 = none;
  }

  abbrev no_l1 : L1BlockInputs X
  no_l1 = record {
    l1_block_call_input_1 = none;
    ethereum_block_1 = none;
    l1_block_call_input_2 = none;
    ethereum_block_2 = none;
  }

  top_hash : X.hash_slow (header_at top) ≡ hash_at top
  top_hash =
      Serves-hash_slow N url header_at hash_at top a.serves
        (omega (arith, required_depth_positive chain_id depth a.reachable.known, a.reachable.deep))

  linea_validated :
      (env_header : X.Header)
      → is_linea_chain chain_id ≡ true
      → Sealed X chain_id (header_at top)
      → get_validated_block_hash X chain_id env_header none none none
          (header_at top)
          false
          none
          none
          none
        ≡ ok (hash_at top)
  unfolding get_validated_block_hash get_validated_block_hash_linea is_linea_chain
  linea_validated env_header linea sealed =
      rw (linea, validate_linea_env_complete X chain_id (header_at top) sealed, top_hash) refl

  -- A run for a Linea chain without L1 inclusion gives the journal entries of the queries and the
  -- amounts, where the endpoint serves linked headers up to its latest block and answers the
  -- multicall as the guest's environment of the block the depth lower does, the Linea sequencer has
  -- sealed the latest block, serde gives the request back, and target chains fit in 32 bits.
  pub run_e2e_linea :
      (env_latest : N.HostEnv eth)
      → is_linea_chain chain_id ≡ true
      → eth_env N url latest eth_mainnet_chain_spec ≡ ok env_latest
      → X.number (N.header env_latest) ≡ top
      → Sealed X chain_id (header_at top)
      → run_e2e N from_slice users markets target_chain_ids chain_id false fallback
        ≡ ok (entries_of X chain_id false (batch_params users markets target_chain_ids) amounts)
  unfolding get_sequencer_commitments_and_blocks latest_block
      get_l1block_call_inputs_and_l1_block_numbers block_to_prove
  run_e2e_linea env_latest linea built numbered sealed =
      let (no_opstack, no_ethereum) = not_opstack chain_id linea in
      run_e2e-accepted N users markets target_chain_ids chain_id url from_slice name testnet
        fallback depth top header_at hash_at amounts (fetched_of top none) no_l1 a serde fit
        (rw (no_opstack, no_ethereum, linea, built, numbered) refl) (rw no_ethereum refl)
        (rw (no_ethereum, no_opstack) refl) (linea_validated (X.env_header a.env) linea sealed)

  opstack_validated :
      (env_header : X.Header) (commitment : SequencerCommitment X)
      → is_opstack_chain chain_id ≡ true
      → Commits X chain_id commitment (hash_at top)
      → get_validated_block_hash X chain_id env_header
          (some commitment)
          none
          none
          (header_at top)
          false
          none
          none
          none
        ≡ ok (hash_at top)
  unfolding get_validated_block_hash is_linea_chain
  opstack_validated env_header commitment opstack commits =
      rw ((not_linea chain_id opstack).0, opstack_branch chain_id opstack)
        ((get_validated_block_hash_opstack_iff X chain_id (some commitment) none none
            (header_at top) none none none false (hash_at top)).1
          ((commitment, refl, rw top_hash commits), top_hash))

  -- A run for an OpStack chain without L1 inclusion gives the journal entries of the queries and the
  -- amounts, where the chain's sequencer API answers with a commitment that the sequencer signed to
  -- some block, the endpoint serves linked headers up to that block and answers the multicall as the
  -- guest's environment of the block the depth lower does, serde gives the request back, and target
  -- chains fit in 32 bits.
  pub run_e2e_opstack :
      (commitment : SequencerCommitment X)
      → is_opstack_chain chain_id ≡ true
      → Announced N chain_id fallback commitment top
      → Commits X chain_id commitment (hash_at top)
      → run_e2e N from_slice users markets target_chain_ids chain_id false fallback
        ≡ ok (entries_of X chain_id false (batch_params users markets target_chain_ids) amounts)
  unfolding get_sequencer_commitments_and_blocks committed_block
      get_l1block_call_inputs_and_l1_block_numbers block_to_prove
  run_e2e_opstack commitment opstack answered commits =
      let (no_linea, no_ethereum) = not_linea chain_id opstack in
      let announced =
        get_current_sequencer_commitment-Announced N chain_id fallback commitment top answered in
      run_e2e-accepted N users markets target_chain_ids chain_id url from_slice name testnet
        fallback depth top header_at hash_at amounts (fetched_of top (some commitment)) no_l1 a
        serde fit (rw (opstack, announced) refl) (rw no_ethereum refl)
        (rw (no_ethereum, opstack) refl)
        (opstack_validated (X.env_header a.env) commitment opstack commits)

  ethereum_validated :
      (env_header : X.Header) (commitment : Option (SequencerCommitment X))
      (l1_input : Option (X.EvmInput eth))
      → is_ethereum_chain chain_id ≡ true
      → VouchedBy X commitment l1_input chain_id (hash_at top)
      → get_validated_block_hash X chain_id env_header commitment l1_input none
          (header_at top)
          false
          none
          none
          none
        ≡ ok (hash_at top)
  unfolding get_validated_block_hash is_linea_chain is_ethereum_chain
  ethereum_validated env_header commitment l1_input ethereum vouched =
      let (not_guest_opstack, no_linea) = ethereum_branch chain_id ethereum in
      rw (no_linea, not_guest_opstack, ethereum)
        ((via_opstack_iff X commitment l1_input chain_id none none (hash_at top)).1 vouched)

  -- A run for Ethereum without L1 inclusion gives the journal entries of the queries and the amounts,
  -- where the Optimism sequencer's API answers with a commitment that vouches for the Ethereum block
  -- which the L1Block contract names at the committed block, the endpoint serves linked headers up
  -- to that Ethereum block and answers the multicall as the guest's environment of the block the
  -- depth lower does, serde gives the request back, and target chains fit in 32 bits.
  pub run_e2e_ethereum :
      (commitment : SequencerCommitment X) (opstack_block : ℕ) (l1_input : X.EvmInput eth)
      → is_ethereum_chain chain_id ≡ true
      → Announced N
          (get_default_sequencer_chain chain_id (is_sepolia_chain chain_id))
          fallback
          commitment
          opstack_block
      → Recorded N
          (if is_sepolia_chain chain_id then optimism_sepolia_chain_id else optimism_chain_id)
          fallback
          opstack_block
          l1_input
          top
      → VouchedBy X (some commitment) (some l1_input) chain_id (hash_at top)
      → run_e2e N from_slice users markets target_chain_ids chain_id false fallback
        ≡ ok (entries_of X chain_id false (batch_params users markets target_chain_ids) amounts)
  unfolding get_sequencer_commitments_and_blocks committed_block
      get_l1block_call_inputs_and_l1_block_numbers block_to_prove
  run_e2e_ethereum commitment opstack_block l1_input ethereum answered recorded vouched =
      let (no_opstack, no_linea) = not_l2 chain_id ethereum in
      let announced =
        get_current_sequencer_commitment-Announced N
          (get_default_sequencer_chain chain_id (is_sepolia_chain chain_id)) fallback commitment
          opstack_block answered in
      let l1_recorded =
        get_l1block_call_input-Recorded N
          (if is_sepolia_chain chain_id then optimism_sepolia_chain_id else optimism_chain_id)
          fallback opstack_block l1_input top recorded in
      run_e2e-accepted N users markets target_chain_ids chain_id url from_slice name testnet
        fallback depth top header_at hash_at amounts (fetched_of opstack_block (some commitment))
        (record {
          l1_block_call_input_1 = some l1_input;
          ethereum_block_1 = some top;
          l1_block_call_input_2 = none;
          ethereum_block_2 = none;
        })
        a serde fit (rw (no_opstack, ethereum, announced) refl) (rw (ethereum, l1_recorded) refl)
        (rw (ethereum) refl)
        (ethereum_validated (X.env_header a.env) (some commitment) (some l1_input) ethereum vouched)
