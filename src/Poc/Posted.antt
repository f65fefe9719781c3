-- ===== src/Poc/Posted.antt =====
-- The run of a Linea chain with L1 inclusion: the block is the newest one that is posted to Ethereum.
pub mod Passes
use malda_lending_fuzz.Prelude.{
  ℕ, ◌-◌, ◌≤◌, ◌<◌, ◌^◌, ◌≡◌, refl, sym, ap, ◌∙◌, arith, Bool, true, false, not, ◌&&◌, ◌||◌, ◌==◌,
  leb, ltb, if◌then◌else◌, String, Option, none, some, List, [], map, Result, Report, ok, ◌>>=◌,
}
use malda_lending_fuzz.Bytes.{Bytes, Address, B256, U256}
use malda_lending_fuzz.Constants.{optimism_chain_id, optimism_sepolia_chain_id}
use malda_lending_fuzz.Externals.{Externals, eth, eth_mainnet_chain_spec}
use malda_lending_fuzz.Types.Contracts.{CallResult, current_l2_block_number}
use malda_lending_fuzz.Types.Commitment.{SequencerCommitment}
use malda_lending_fuzz.Validators.ChainLength.{validate_chain_length}
use malda_lending_fuzz.Validators.Opstack.Laws.{VouchedBy}
use malda_lending_fuzz.Validators.Linea.{message_service}
use malda_lending_fuzz.Validators.Linea.Laws.{Sealed}
use malda_lending_fuzz.Validators.BlockHash.{get_validated_block_hash, ethereum_of_linea}
use malda_lending_fuzz.Validators.BlockHash.Linea.{
  LineaInclusion, get_validated_block_hash_linea_iff,
}
use malda_lending_fuzz.Validators.Params.{header_to_validate, is_opstack}
use malda_lending_fuzz.Validators.Params.Laws.{sort_and_verify-posted}
use malda_lending_fuzz.Validators.Batch.{batch_params}
use malda_lending_fuzz.Validators.ProofCall.{Request, batch_call, validate_get_proof_data_call}
use malda_lending_fuzz.Journal.Entries.{entries_of}
use malda_lending_fuzz.Host.Chains.{
  is_opstack_chain, is_linea_chain, is_ethereum_chain, get_default_sequencer_chain,
}
use malda_lending_fuzz.Host.Network.{
  Network, at_number, get_rpc_url, eth_env, call_preflight, env_into_input,
}
use malda_lending_fuzz.Host.Sequencer.{get_sequencer_commitments_and_blocks, committed_block}
use malda_lending_fuzz.Host.L1Block.{get_l1block_call_inputs_and_l1_block_numbers}
use malda_lending_fuzz.Host.L1Inclusion.{
  message_service_address, get_env_input_for_linea_l1_call, l1_block_for,
  get_env_input_for_l1_inclusion_and_l2_block_number,
}
use malda_lending_fuzz.Host.LinkingBlocks.Window.{required_depth_positive, Serves-hash_slow}
use malda_lending_fuzz.Host.LinkingBlocks.{get_linking_blocks}
use malda_lending_fuzz.Host.LinkingBlocks.Served.{served, get_linking_blocks-served}
use malda_lending_fuzz.Host.CallInput.CallData.{FitU32}
use malda_lending_fuzz.Host.ZkvmInput.{
  get_request, is_sepolia_chain, block_to_prove, linking_chain, get_proof_data_zkvm_input,
}
use malda_lending_fuzz.Poc.{decode_input, run_e2e}
use malda_lending_fuzz.Poc.Prepared.{Preflighted, Reachable, call_input-plain}
use malda_lending_fuzz.Poc.Accepted.{Answered, Rebuilt, RoundTrips, batch_call-entries}
use malda_lending_fuzz.Poc.Sources.{
  Announced, get_current_sequencer_commitment-Announced, Recorded, get_l1block_call_input-Recorded,
}

-- The tables of the host and of the guest for a Linea chain.
pub linea_tables :
    (chain_id : ℕ)
    → is_linea_chain chain_id ≡ true
    → (is_opstack_chain chain_id ≡ false)
      × (is_ethereum_chain chain_id ≡ false)
      × (message_service_address chain_id ≡ message_service chain_id)
      × (is_opstack chain_id ≡ false)
unfolding is_linea_chain is_opstack_chain is_ethereum_chain message_service_address message_service
linea_tables chain_id linea = (ground arith, ground arith, refl, ground arith)

module _ {X : Externals} (N : Network X) (users markets : List Address) (target_chain_ids : List ℕ)
    (chain_id : ℕ) (url : String) where
  -- What Linea's message service on Ethereum answers at a block, and the input taken of that call.
  pub record Posted (fallback : Bool) (ethereum_url : String) (ethereum_block posted : ℕ)
      (eth_input : X.EvmInput eth) : Type 0 where
    pub service : Address
    pub host_env : N.HostEnv eth
    pub host_env_called : N.HostEnv eth
    pub known : message_service chain_id ≡ ok service
    pub endpoint : get_rpc_url N "ETHEREUM" fallback (is_sepolia_chain chain_id) ≡ ok ethereum_url
    pub built :
        eth_env N ethereum_url (at_number ethereum_block) eth_mainnet_chain_spec ≡ ok host_env
    pub called :
        N.preflight eth host_env service current_l2_block_number ≡ ok (host_env_called, posted)
    pub taken : N.into_input eth host_env_called ≡ ok eth_input

  l1_inclusion-Posted :
      (fallback : Bool) (ethereum_url : String) (ethereum_block posted : ℕ)
      (eth_input : X.EvmInput eth)
      → is_linea_chain chain_id ≡ true
      → posted < 2 ^ 64
      → Posted fallback ethereum_url ethereum_block posted eth_input
      → get_env_input_for_l1_inclusion_and_l2_block_number N chain_id
          (is_sepolia_chain chain_id)
          true
          (some ethereum_block)
          fallback
        ≡ ok (some eth_input, some posted)
  unfolding get_env_input_for_l1_inclusion_and_l2_block_number l1_block_for
      get_env_input_for_linea_l1_call call_preflight env_into_input
  l1_inclusion-Posted fallback ethereum_url ethereum_block posted eth_input linea small p =
      let (no_opstack, _, same_service, _) = linea_tables chain_id linea in
      let fits : ltb posted (2 ^ 64) ≡ true = ground arith in
      rw (p.endpoint, linea, no_opstack, same_service ∙ p.known, p.built, p.called, fits, p.taken)
        refl

  abbrev pub posted_request :
      SequencerCommitment X
      → (l1_input input eth_input : X.EvmInput eth) → List X.Header
      → Request X
  posted_request commitment l1_input input eth_input blocks = record {
    env_input = some input;
    chain_id = chain_id;
    account = users;
    asset = markets;
    target_chain_ids = target_chain_ids;
    sequencer_commitment = some commitment;
    env_op_input = some l1_input;
    linking_blocks = blocks;
    env_eth_input = some eth_input;
    op_evm_input = none;
    sequencer_commitment_opstack_2 = none;
    env_op_input_2 = none;
  }

  pub get_request-Posted :
      (name : String) (testnet fallback : Bool) (depth posted : ℕ) (answers : List CallResult)
      (input : X.EvmInput eth) (commitment : SequencerCommitment X) (opstack_block : ℕ)
      (l1_input : X.EvmInput eth) (ethereum_url : String) (ethereum_block : ℕ)
      (eth_input : X.EvmInput eth) (blocks : List X.Header)
      → is_linea_chain chain_id ≡ true
      → Reachable N users markets target_chain_ids chain_id url name testnet fallback depth posted
      → Announced N
          (get_default_sequencer_chain chain_id (is_sepolia_chain chain_id))
          fallback
          commitment
          opstack_block
      → Recorded N
          (if is_sepolia_chain chain_id then optimism_sepolia_chain_id else optimism_chain_id)
          fallback
          opstack_block
          l1_input
          ethereum_block
      → Posted fallback ethereum_url ethereum_block posted eth_input
      → get_linking_blocks N chain_id url posted ≡ ok blocks
      → Preflighted N users markets target_chain_ids chain_id url (posted - depth) answers input
      → get_request N users markets target_chain_ids chain_id true fallback
        ≡ ok (posted_request commitment l1_input input eth_input blocks)
  unfolding get_request get_sequencer_commitments_and_blocks committed_block
      get_l1block_call_inputs_and_l1_block_numbers block_to_prove linking_chain
  get_request-Posted name testnet fallback depth posted answers input commitment opstack_block
        l1_input ethereum_url ethereum_block eth_input blocks linea r announced recorded p window
        preflighted =
      let (no_opstack, no_ethereum, _, _) = linea_tables chain_id linea in
      let by_block : (is_opstack_chain chain_id && true) ≡ false = rw no_opstack refl in
      rw
        (
          r.params,
          r.endpoint,
          no_opstack,
          no_ethereum,
          linea,
          get_current_sequencer_commitment-Announced N _ fallback commitment opstack_block
              announced,
          get_l1block_call_input-Recorded N _ fallback opstack_block l1_input ethereum_block
              recorded,
          l1_inclusion-Posted fallback ethereum_url ethereum_block posted eth_input linea r.small p,
          window,
          call_input-plain N users markets target_chain_ids chain_id url name testnet true fallback
              depth posted answers input r by_block preflighted,
        )
        refl
