-- ===== src/Poc/Accepted.antt =====
-- The guest's validation of such a request, where its environment answers as the endpoint did, and
-- the whole way from the host to the guest.
use malda_lending_fuzz.Prelude.{
  ℕ, ◌-◌, ◌≡◌, refl, Bool, false, String, none, List, [], map, Result, Report, ok,
}
use malda_lending_fuzz.Bytes.{Bytes, Address, B256, U256}
use malda_lending_fuzz.Constants.{multicall}
use malda_lending_fuzz.Externals.{Externals, eth}
use malda_lending_fuzz.Types.Contracts.{CallResult, aggregate3}
use malda_lending_fuzz.Validators.ChainLength.{validate_chain_length}
use malda_lending_fuzz.Validators.BlockHash.{get_validated_block_hash}
use malda_lending_fuzz.Validators.Params.{spec_for_viewcall, header_to_validate}
use malda_lending_fuzz.Validators.Params.Laws.{sort_and_verify-plain}
use malda_lending_fuzz.Validators.Batch.{batch_params, batch_call_get_proof_data}
use malda_lending_fuzz.Validators.ProofCall.{Request, batch_call, validate_get_proof_data_call}
use malda_lending_fuzz.Journal.Entries.{Decoded, entries_of, encode_results-entries_of}
use malda_lending_fuzz.Host.Network.{Network}
use malda_lending_fuzz.Host.Sequencer.{CommitmentsAndBlocks, get_sequencer_commitments_and_blocks}
use malda_lending_fuzz.Host.L1Block.{L1BlockInputs, get_l1block_call_inputs_and_l1_block_numbers}
use malda_lending_fuzz.Host.LinkingBlocks.Window.{Serves}
use malda_lending_fuzz.Host.LinkingBlocks.Served.{served, get_linking_blocks-served}
use malda_lending_fuzz.Host.CallInput.{host_call}
use malda_lending_fuzz.Host.CallInput.CallData.{FitU32, host_calls_lem}
use malda_lending_fuzz.Host.ZkvmInput.{
  is_sepolia_chain, block_to_prove, get_request, get_proof_data_zkvm_input,
}
use malda_lending_fuzz.Poc.{decode_input, run_e2e}
use malda_lending_fuzz.Poc.Prepared.{Preflighted, Reachable, plain_request, get_request-plain}

module _ {X : Externals} (N : Network X) (users markets : List Address) (target_chain_ids : List ℕ)
    (chain_id : ℕ) (url : String) where
  -- What the guest builds of an input: the environment of the block with this hash, which answers
  -- the multicall that the host made as it was answered then, so that each answer decodes.
  pub record Rebuilt (l1_inclusion : Bool) (block_hash : B256) (answers : List CallResult)
      (amounts : List (U256 × U256)) (input : X.EvmInput eth) (env : X.EvmEnv eth) : Type 0 where
    pub built : X.into_env eth input (spec_for_viewcall chain_id) ≡ ok env
    pub seal : X.env_seal env ≡ block_hash
    pub repeated :
        X.call eth env multicall
          (aggregate3 (map host_call (batch_params users markets target_chain_ids)))
        ≡ ok answers
    pub decoded :
        Decoded X chain_id l1_inclusion
          (batch_params users markets target_chain_ids)
          answers
          amounts

  pub batch_call-entries :
      (l1_inclusion : Bool) (block_hash : B256) (answers : List CallResult)
      (amounts : List (U256 × U256)) (input : X.EvmInput eth) (env : X.EvmEnv eth)
      → FitU32 target_chain_ids
      → Rebuilt l1_inclusion block_hash answers amounts input env
      → batch_call_get_proof_data X chain_id l1_inclusion eth users markets target_chain_ids env []
        ≡ ok (
            entries_of X chain_id l1_inclusion
              (batch_params users markets target_chain_ids)
              amounts)
  unfolding batch_call_get_proof_data
  batch_call-entries l1_inclusion block_hash answers amounts input env fit r =
      let queries = batch_params users markets target_chain_ids in
      let same = host_calls_lem users markets target_chain_ids fit in
      let called = rw same at r.repeated in
      rw called
        (encode_results-entries_of X chain_id l1_inclusion queries answers amounts [] r.decoded)

  plain_request-accepted :
      (block_hash hash : B256) (answers : List CallResult) (amounts : List (U256 × U256))
      (input : X.EvmInput eth) (env : X.EvmEnv eth) (fetched : CommitmentsAndBlocks X)
      (l1 : L1BlockInputs X) (blocks : List X.Header)
      → FitU32 target_chain_ids
      → Rebuilt false block_hash answers amounts input env
      → get_validated_block_hash X chain_id
          (X.env_header env)
          fetched.commitment
          l1.l1_block_call_input_1
          none
          (header_to_validate X blocks (X.env_header env))
          false
          none
          fetched.commitment_2
          l1.l1_block_call_input_2
        ≡ ok hash
      → validate_chain_length X chain_id block_hash blocks hash ≡ ok tt
      → validate_get_proof_data_call X
          (plain_request N users markets target_chain_ids chain_id url fetched l1 blocks input)
          []
        ≡ ok (entries_of X chain_id false (batch_params users markets target_chain_ids) amounts)
  unfolding validate_get_proof_data_call batch_call
  plain_request-accepted block_hash hash answers amounts input env fetched l1 blocks fit r trusted
        linked =
      rw
        (
          sort_and_verify-plain X chain_id input blocks env r.built,
          trusted,
          r.seal,
          linked,
          batch_call-entries false block_hash answers amounts input env fit r,
        )
        refl

  -- risc0's serde gives back the request that the host has prepared.
  abbrev pub RoundTrips : (Bytes → Result Report (Request X)) → Bool → Bool → Type 0
  RoundTrips from_slice l1_inclusion fallback =
      (r : Request X)
      → get_request N users markets target_chain_ids chain_id l1_inclusion fallback ≡ ok r
      → (bytes : Bytes) × (N.request_to_vec r ≡ ok bytes) × (from_slice bytes ≡ ok r)

  -- What one run without L1 inclusion depends on, but for the source of its block: the endpoint serves
  -- a chain of linked headers up to block `top`, and answers the multicall at the block that is the
  -- depth lower, as the guest's environment of that block does.
  pub record Answered (l1_inclusion : Bool) (name : String) (testnet fallback : Bool)
      (depth top : ℕ) (header_at : ℕ → X.Header) (hash_at : ℕ → B256) (amounts : List (U256 × U256))
      : Type 0 where
    pub reachable :
        Reachable N users markets target_chain_ids chain_id url name testnet fallback depth top
    pub serves : Serves N url header_at hash_at top
    pub answers : List CallResult
    pub input : X.EvmInput eth
    pub env : X.EvmEnv eth
    pub preflighted :
        Preflighted N users markets target_chain_ids chain_id url (top - depth) answers input
    pub rebuilt : Rebuilt l1_inclusion (hash_at (top - depth)) answers amounts input env

  pub run_e2e-accepted :
      (from_slice : Bytes → Result Report (Request X)) (name : String) (testnet fallback : Bool)
      (depth top : ℕ) (header_at : ℕ → X.Header) (hash_at : ℕ → B256) (amounts : List (U256 × U256))
      (fetched : CommitmentsAndBlocks X) (l1 : L1BlockInputs X)
      (a : Answered false name testnet fallback depth top header_at hash_at amounts)
      → RoundTrips from_slice false fallback
      → FitU32 target_chain_ids
      → get_sequencer_commitments_and_blocks N chain_id url
          (is_sepolia_chain chain_id)
          false
          fallback
        ≡ ok fetched
      → get_l1block_call_inputs_and_l1_block_numbers N chain_id
          (is_sepolia_chain chain_id)
          false
          fetched.block
          fetched.block_2
          fallback
        ≡ ok l1
      → block_to_prove chain_id false fetched.block l1.ethereum_block_1 none ≡ ok top
      → get_validated_block_hash X chain_id
          (X.env_header a.env)
          fetched.commitment
          l1.l1_block_call_input_1
          none
          (header_at top)
          false
          none
          fetched.commitment_2
          l1.l1_block_call_input_2
        ≡ ok (hash_at top)
      → run_e2e N from_slice users markets target_chain_ids chain_id false fallback
        ≡ ok (entries_of X chain_id false (batch_params users markets target_chain_ids) amounts)
  unfolding run_e2e decode_input get_proof_data_zkvm_input
  run_e2e-accepted from_slice name testnet fallback depth top header_at hash_at amounts fetched l1 a
        serde fit e₁ e₂ e₃ trusted =
      let r = a.reachable in
      let (window, last, linked) =
        get_linking_blocks-served N url header_at hash_at chain_id depth top (X.env_header a.env)
          a.serves r.known r.deep r.small in
      let blocks = served N url header_at (top - depth) depth in
      let request =
        plain_request N users markets target_chain_ids chain_id url fetched l1 blocks a.input in
      let prepared =
        get_request-plain N users markets target_chain_ids chain_id url name testnet fallback depth
          top a.answers a.input fetched l1 blocks r e₁ e₂ e₃ window a.preflighted in
      let (bytes, written, read) = serde request prepared in
      rw (prepared, written, read)
        (plain_request-accepted (hash_at (top - depth)) (hash_at top) a.answers amounts a.input
          a.env fetched l1 blocks fit a.rebuilt (rw last trusted) linked)
