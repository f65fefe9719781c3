-- ===== src/Poc/Finalized/Passes.antt =====
-- The run of an OpStack chain with L1 inclusion.
use malda_lending_fuzz.Prelude.{
  ℕ, ◌-◌, ◌≡◌, refl, ap, ◌∙◌, arith, Bool, true, String, some, List, [], Result, Report, ok,
  if◌then◌else◌,
}
use malda_lending_fuzz.Bytes.{Bytes, Address, B256, U256}
use malda_lending_fuzz.Constants.{optimism_chain_id, optimism_sepolia_chain_id}
use malda_lending_fuzz.Externals.{Externals, eth, op}
use malda_lending_fuzz.Types.Contracts.{CallResult}
use malda_lending_fuzz.Types.Commitment.{SequencerCommitment}
use malda_lending_fuzz.Validators.ChainLength.{validate_chain_length}
use malda_lending_fuzz.Validators.Opstack.Laws.{VouchedBy}
use malda_lending_fuzz.Validators.Params.{header_to_validate}
use malda_lending_fuzz.Validators.Params.Laws.{sort_and_verify-finalized}
use malda_lending_fuzz.Validators.Batch.{batch_params}
use malda_lending_fuzz.Validators.ProofCall.{Request, batch_call, validate_get_proof_data_call}
use malda_lending_fuzz.Journal.Entries.{entries_of}
use malda_lending_fuzz.Host.Chains.{get_default_sequencer_chain}
use malda_lending_fuzz.Host.Network.{Network}
use malda_lending_fuzz.Host.LinkingBlocks.Window.{Serves, Serves-hash_slow, required_depth_positive}
use malda_lending_fuzz.Host.LinkingBlocks.Served.{served, get_linking_blocks-served}
use malda_lending_fuzz.Host.CallInput.CallData.{FitU32}
use malda_lending_fuzz.Host.ZkvmInput.{is_sepolia_chain, get_proof_data_zkvm_input}
use malda_lending_fuzz.Poc.{decode_input, run_e2e}
use malda_lending_fuzz.Poc.Accepted.{RoundTrips}
use malda_lending_fuzz.Poc.Sources.{Announced, Recorded}
use malda_lending_fuzz.Poc.Game.{GameChecked, GameAnswered}
use malda_lending_fuzz.Poc.Finalized.{Settling, finalized_request, get_request-finalized}
use malda_lending_fuzz.Poc.Finalized.Rebuilt.{
  guest_opstack, Rebuilt, finalized_validated, batch_call-finalized,
}

module _ {X : Externals} (N : Network X) (users markets : List Address) (target_chain_ids : List ℕ)
    (chain_id ethereum_chain : ℕ) where
  -- What one run with L1 inclusion depends on.
  pub record Settled (fallback : Bool) (url ethereum_url : String) (depth top : ℕ)
      (header_at : ℕ → X.Header) (hash_at : ℕ → B256) (amounts : List (U256 × U256)) : Type 0 where
    pub settling :
        Settling N users markets target_chain_ids chain_id fallback url ethereum_url ethereum_chain
          depth top
    pub serves : Serves N ethereum_url header_at hash_at top
    pub commitment : SequencerCommitment X
    pub opstack_block : ℕ
    pub l1_input : X.EvmInput eth
    pub announced :
        Announced N
          (get_default_sequencer_chain chain_id (is_sepolia_chain chain_id))
          fallback
          commitment
          opstack_block
    pub recorded :
        Recorded N
          (if is_sepolia_chain chain_id then optimism_sepolia_chain_id else optimism_chain_id)
          fallback
          opstack_block
          l1_input
          top
    pub vouched : VouchedBy X (some commitment) (some l1_input) ethereum_chain (hash_at top)
    pub start : N.HostEnv eth
    pub end : N.HostEnv eth
    pub game : X.Commitment
    pub game_input : X.EvmInput eth
    pub checked :
        GameChecked N users markets target_chain_ids chain_id fallback
          (top - depth)
          start
          end
          game
          game_input
    pub answers : List CallResult
    pub op_input : X.EvmInput op
    pub answered : GameAnswered N users markets target_chain_ids chain_id fallback answers op_input
    pub env : X.EvmEnv eth
    pub op_env : X.EvmEnv op
    pub rebuilt :
        Rebuilt N users markets target_chain_ids chain_id ethereum_chain
          (hash_at (top - depth))
          start
          end
          game
          game_input
          env
          op_input
          op_env
          answers
          amounts

  finalized_request-accepted :
      (fallback : Bool) (url ethereum_url : String) (depth top : ℕ) (header_at : ℕ → X.Header)
      (hash_at : ℕ → B256) (amounts : List (U256 × U256)) (blocks : List X.Header)
      (s : Settled fallback url ethereum_url depth top header_at hash_at amounts)
      → FitU32 target_chain_ids
      → X.hash_slow (header_to_validate X blocks (X.env_header s.env)) ≡ hash_at top
      → validate_chain_length X ethereum_chain (hash_at (top - depth)) blocks (hash_at top) ≡ ok tt
      → validate_get_proof_data_call X
          (finalized_request N users markets target_chain_ids chain_id fallback s.commitment
            s.l1_input s.game_input blocks s.op_input)
          []
        ≡ ok (entries_of X chain_id true (batch_params users markets target_chain_ids) amounts)
  unfolding validate_get_proof_data_call batch_call
  finalized_request-accepted fallback url ethereum_url depth top header_at hash_at amounts blocks s
        fit last linked =
      let c = s.settling in
      let r = s.rebuilt in
      let before = hash_at (top - depth) in
      rw
        (
          sort_and_verify-finalized X chain_id ethereum_chain s.game_input s.op_input blocks s.env
              s.op_env (guest_opstack chain_id c.opstack).0 c.ethereum r.built r.op_built,
          finalized_validated N users markets target_chain_ids chain_id ethereum_chain before
              s.start s.end s.game s.game_input s.env s.op_input s.op_env s.answers amounts fallback
              (top - depth) s.commitment s.l1_input
              (header_to_validate X blocks (X.env_header s.env)) c.opstack c.ethereum s.checked r
              (rw last s.vouched),
          r.seal,
          last,
          linked,
          batch_call-finalized N users markets target_chain_ids chain_id ethereum_chain before
              s.start s.end s.game s.game_input s.env s.op_input s.op_env s.answers amounts fit r,
        )
        refl

  -- A run for an OpStack chain with L1 inclusion gives the journal entries of the queries and the
  -- amounts, where the Optimism sequencer's API answers with a commitment that vouches for the
  -- Ethereum block which the L1Block contract names at the committed block, Ethereum's endpoint
  -- serves linked headers up to that block, the host's checks of a dispute game pass at the block the
  -- depth lower and the guest's environment of that block replays them, the multicall is answered in
  -- the state of the same game as the guest's environment of it answers it, serde gives the request
  -- back, and target chains fit in 32 bits.
  pub run_e2e_finalized :
      (from_slice : Bytes → Result Report (Request X)) (fallback : Bool) (url ethereum_url : String)
      (depth top : ℕ) (header_at : ℕ → X.Header) (hash_at : ℕ → B256) (amounts : List (U256 × U256))
      → Settled fallback url ethereum_url depth top header_at hash_at amounts
      → RoundTrips N users markets target_chain_ids chain_id url from_slice true fallback
      → FitU32 target_chain_ids
      → run_e2e N from_slice users markets target_chain_ids chain_id true fallback
        ≡ ok (entries_of X chain_id true (batch_params users markets target_chain_ids) amounts)
  unfolding run_e2e decode_input get_proof_data_zkvm_input
  run_e2e_finalized from_slice fallback url ethereum_url depth top header_at hash_at amounts s serde
        fit =
      let c = s.settling in
      let (window, last, linked) =
        get_linking_blocks-served N ethereum_url header_at hash_at ethereum_chain depth top
          (X.env_header s.env) s.serves c.known c.deep c.small in
      let blocks = served N ethereum_url header_at (top - depth) depth in
      let prepared =
        get_request-finalized N users markets target_chain_ids chain_id fallback url ethereum_url
          ethereum_chain depth top s.commitment s.opstack_block s.l1_input s.game_input s.start
          s.end s.game blocks s.answers s.op_input c s.announced s.recorded s.checked window
          s.answered in
      let (bytes, written, read) =
        serde
          (finalized_request N users markets target_chain_ids chain_id fallback s.commitment
            s.l1_input s.game_input blocks s.op_input)
          prepared in
      let top_hash =
        Serves-hash_slow N ethereum_url header_at hash_at top s.serves
          (omega (arith, required_depth_positive ethereum_chain depth c.known, c.deep)) in
      rw (prepared, written, read)
        (finalized_request-accepted fallback url ethereum_url depth top header_at hash_at amounts
          blocks s fit (ap X.hash_slow last ∙ top_hash) linked)
