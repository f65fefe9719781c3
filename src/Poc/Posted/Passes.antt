-- ===== src/Poc/Posted/Passes.antt =====
-- What such a run gives.
use malda_lending_fuzz.Prelude.{
  ℕ, ◌-◌, ◌≤◌, ◌<◌, ◌^◌, ◌≡◌, refl, arith, Bool, true, if◌then◌else◌, String, none, some, List, [],
  Result, Report, ok,
}
use malda_lending_fuzz.Bytes.{Bytes, Address, B256, U256}
use malda_lending_fuzz.Constants.{optimism_chain_id, optimism_sepolia_chain_id}
use malda_lending_fuzz.Externals.{Externals, eth, eth_mainnet_chain_spec}
use malda_lending_fuzz.Types.Contracts.{current_l2_block_number}
use malda_lending_fuzz.Types.Commitment.{SequencerCommitment}
use malda_lending_fuzz.Validators.ChainLength.{validate_chain_length}
use malda_lending_fuzz.Validators.Opstack.Laws.{VouchedBy}
use malda_lending_fuzz.Validators.Linea.Laws.{Sealed}
use malda_lending_fuzz.Validators.BlockHash.{get_validated_block_hash, ethereum_of_linea}
use malda_lending_fuzz.Validators.BlockHash.Linea.{get_validated_block_hash_linea_iff}
use malda_lending_fuzz.Validators.Params.{header_to_validate}
use malda_lending_fuzz.Validators.Params.Laws.{sort_and_verify-posted}
use malda_lending_fuzz.Validators.Batch.{batch_params}
use malda_lending_fuzz.Validators.ProofCall.{Request, batch_call, validate_get_proof_data_call}
use malda_lending_fuzz.Journal.Entries.{entries_of}
use malda_lending_fuzz.Host.Chains.{is_linea_chain, get_default_sequencer_chain}
use malda_lending_fuzz.Host.Network.{Network}
use malda_lending_fuzz.Host.LinkingBlocks.Window.{required_depth_positive, Serves-hash_slow}
use malda_lending_fuzz.Host.LinkingBlocks.Served.{served, get_linking_blocks-served}
use malda_lending_fuzz.Host.CallInput.CallData.{FitU32}
use malda_lending_fuzz.Host.ZkvmInput.{is_sepolia_chain, get_proof_data_zkvm_input}
use malda_lending_fuzz.Poc.{decode_input, run_e2e}
use malda_lending_fuzz.Poc.Accepted.{Answered, RoundTrips, batch_call-entries}
use malda_lending_fuzz.Poc.Sources.{Announced, Recorded}
use malda_lending_fuzz.Validators.Linea.Laws.{validate_linea_env_with_l1_inclusion_iff}
use malda_lending_fuzz.Poc.Posted.{Posted, posted_request, get_request-Posted, linea_tables}

module _ {X : Externals} (N : Network X) (users markets : List Address) (target_chain_ids : List ℕ)
    (chain_id : ℕ) (url : String) where
  -- What one run with L1 inclusion depends on: Linea's own answers up to the posted block, and
  -- Ethereum's, of which the guest's environment is the vouched block and answers as the host was
  -- answered.
  pub record PostedChain (name : String) (testnet fallback : Bool) (depth posted : ℕ)
      (header_at : ℕ → X.Header) (hash_at : ℕ → B256) (amounts : List (U256 × U256)) : Type 0 where
    pub linea : is_linea_chain chain_id ≡ true
    pub answered :
        Answered N users markets target_chain_ids chain_id url true name testnet fallback depth
          posted header_at hash_at amounts
    pub sealed : Sealed X chain_id (header_at posted)
    pub commitment : SequencerCommitment X
    pub opstack_block : ℕ
    pub l1_input : X.EvmInput eth
    pub ethereum_url : String
    pub ethereum_chain : ℕ
    pub ethereum_block : ℕ
    pub ethereum_hash : B256
    pub eth_input : X.EvmInput eth
    pub eth_env : X.EvmEnv eth
    pub ethereum : ethereum_of_linea chain_id ≡ ok ethereum_chain
    pub announced :
        Announced N
          (get_default_sequencer_chain chain_id (is_sepolia_chain chain_id))
          fallback
          commitment
          opstack_block
    pub recorded :
        Recorded N
          (if is_sepolia_chain chain_id then optimism_sepolia_chain_id else optimism_chain_id)
          fallback
          opstack_block
          l1_input
          ethereum_block
    pub vouched : VouchedBy X (some commitment) (some l1_input) ethereum_chain ethereum_hash
    pub number_posted :
        Posted N users markets target_chain_ids chain_id url fallback ethereum_url ethereum_block
          posted eth_input
    pub built : X.into_env eth eth_input eth_mainnet_chain_spec ≡ ok eth_env
    pub seal : ethereum_hash ≡ X.env_seal eth_env
    pub repeated : X.call eth eth_env number_posted.service current_l2_block_number ≡ ok posted
    pub numbered : X.number (X.env_header answered.env) ≤ posted

  module _ (name : String) (testnet fallback : Bool) (depth posted : ℕ) (header_at : ℕ → X.Header)
      (hash_at : ℕ → B256) (amounts : List (U256 × U256)) (wide : 65 < 2 ^ X.usize_bits)
      (c : PostedChain name testnet fallback depth posted header_at hash_at amounts) where
    top_hash : X.hash_slow (header_at posted) ≡ hash_at posted
    top_hash =
        let r = c.answered.reachable in
        Serves-hash_slow N url header_at hash_at posted c.answered.serves
          (omega (arith, required_depth_positive chain_id depth r.known, r.deep))

    posted_validated :
        get_validated_block_hash X chain_id
          (X.env_header c.answered.env)
          (some c.commitment)
          (some c.l1_input)
          (some c.eth_input)
          (header_at posted)
          true
          none
          none
          none
        ≡ ok (hash_at posted)
    unfolding get_validated_block_hash is_linea_chain
    posted_validated =
        let number_posted =
          (validate_linea_env_with_l1_inclusion_iff X chain_id
              (X.number (X.env_header c.answered.env)) c.eth_input c.ethereum_hash).1
            (
              c.number_posted.service, c.eth_env, posted, c.number_posted.known, c.built, c.seal,
              c.repeated, c.numbered,
            ) in
        rw c.linea (
          (get_validated_block_hash_linea_iff X chain_id (X.env_header c.answered.env)
              (some c.commitment) (some c.l1_input) (some c.eth_input) (header_at posted) none none
              none true (hash_at posted) wide).1
            (
              record {
                ethereum_chain = c.ethereum_chain;
                ethereum_known = c.ethereum;
                ethereum_hash = c.ethereum_hash;
                vouched = c.vouched;
                eth_input = c.eth_input;
                eth_given = refl;
                number_posted = number_posted;
              },
              c.sealed,
              top_hash,
            ))

    posted_request-accepted :
        (blocks : List X.Header)
        → FitU32 target_chain_ids
        → header_to_validate X blocks (X.env_header c.answered.env) ≡ header_at posted
        → validate_chain_length X chain_id (hash_at (posted - depth)) blocks (hash_at posted)
          ≡ ok tt
        → validate_get_proof_data_call X
            (posted_request N users markets target_chain_ids chain_id url c.commitment c.l1_input
              c.answered.input c.eth_input blocks)
            []
          ≡ ok (entries_of X chain_id true (batch_params users markets target_chain_ids) amounts)
    unfolding validate_get_proof_data_call batch_call
    posted_request-accepted blocks fit last linked =
        let a = c.answered in
        let (_, _, _, not_guest_opstack) = linea_tables chain_id c.linea in
        rw
          (
            sort_and_verify-posted X chain_id a.input c.eth_input blocks a.env not_guest_opstack
                a.rebuilt.built,
            last,
            posted_validated,
            a.rebuilt.seal,
            linked,
            batch_call-entries N users markets target_chain_ids chain_id url true
                (hash_at (posted - depth)) a.answers amounts a.input a.env fit a.rebuilt,
          )
          refl

    -- Where `usize` holds 65, a run for a Linea chain with L1 inclusion gives the journal entries of
    -- the queries and the amounts, where the Optimism sequencer's API answers with a commitment that
    -- vouches for the Ethereum block which the L1Block contract names at the committed block, Linea's
    -- message service names a posted Linea block there, to the host as to the guest, the endpoint
    -- serves linked headers up to the posted block, which the Linea sequencer has sealed, and answers
    -- the multicall as the guest's environment of the block the depth lower does, the number of which
    -- is no higher than the posted block's, serde gives the request back, and target chains fit in 32
    -- bits.
    pub run_e2e_posted :
        (from_slice : Bytes → Result Report (Request X))
        → RoundTrips N users markets target_chain_ids chain_id url from_slice true fallback
        → FitU32 target_chain_ids
        → run_e2e N from_slice users markets target_chain_ids chain_id true fallback
          ≡ ok (entries_of X chain_id true (batch_params users markets target_chain_ids) amounts)
    unfolding run_e2e decode_input get_proof_data_zkvm_input
    run_e2e_posted from_slice serde fit =
        let a = c.answered in
        let r = a.reachable in
        let (window, last, linked) =
          get_linking_blocks-served N url header_at hash_at chain_id depth posted
            (X.env_header a.env) a.serves r.known r.deep r.small in
        let blocks = served N url header_at (posted - depth) depth in
        let prepared =
          get_request-Posted N users markets target_chain_ids chain_id url name testnet fallback
            depth posted a.answers a.input c.commitment c.opstack_block c.l1_input c.ethereum_url
            c.ethereum_block c.eth_input blocks c.linea r c.announced c.recorded c.number_posted
            window a.preflighted in
        let (bytes, written, read) =
          serde
            (posted_request N users markets target_chain_ids chain_id url c.commitment c.l1_input
              a.input c.eth_input blocks)
            prepared in
        rw (prepared, written, read) (posted_request-accepted blocks fit last linked)
