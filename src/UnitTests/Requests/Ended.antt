-- ===== src/UnitTests/Requests/Ended.antt =====
-- How the unit tests that ask the network end.
use malda_lending_fuzz.Prelude.{
  inl, inr, ◌⊎◌, Bool-cases, ℕ, ◌≤◌, ◌≡◌, ◌↔◌, refl, arith, Bool, true, ◌&&◌, ◌==◌, if◌then◌else◌,
  String, List, [], ◌∷◌, Result, Report, Outcome, ok, err, bind_ok, l1_inclusion_unsupported,
  assertion_failed,
}
use malda_lending_fuzz.Bytes.{Bytes, Address}
use malda_lending_fuzz.Bytes.Laws.{sub_uint-eq-ok}
use malda_lending_fuzz.Constants.{
  ethereum_chain_id, optimism_chain_id, optimism_sepolia_chain_id, reorg_protection_depth_ethereum,
  reorg_protection_depth_ethereum_sepolia,
}
use malda_lending_fuzz.Externals.{Externals, eth, eth_mainnet_chain_spec, linea_mainnet_chain_spec}
use malda_lending_fuzz.Types.Commitment.{SequencerCommitment}
use malda_lending_fuzz.Validators.Params.{spec_for_viewcall, sort_and_verify_relevant_params}
use malda_lending_fuzz.Host.Chains.{
  get_chain_params, is_ethereum_chain, get_default_sequencer_chain,
}
use malda_lending_fuzz.Host.Network.{Network, latest, get_rpc_url}
use malda_lending_fuzz.Host.Sequencer.{get_sequencer_commitments_and_blocks, committed_block}
use malda_lending_fuzz.Host.L1Block.{get_l1block_call_inputs_and_l1_block_numbers}
use malda_lending_fuzz.Host.L1Inclusion.{
  l1_block_for, get_env_input_for_l1_inclusion_and_l2_block_number,
}
use malda_lending_fuzz.Host.ZkvmInput.{is_sepolia_chain, get_request, get_proof_data_zkvm_input}
use malda_lending_fuzz.Poc.Sources.{
  Announced, get_current_sequencer_commitment-Announced, Recorded, get_l1block_call_input-Recorded,
}
use malda_lending_fuzz.Poc.Tables.{not_l2}
use malda_lending_fuzz.UnitTests.Requests.{
  valid_chain_ids, both, for_each, test_get_proof_data_zkvm_input, zkvm_input_round,
  test_sort_params_linea_l1_inclusion_bug,
}

module _ {X : Externals} (N : Network X) where
  -- Ethereum's input with L1 inclusion: where the endpoints are known, the Optimism sequencer's API
  -- answers with a commitment, the L1Block contract names an Ethereum block at the committed block, and
  -- that block is not below the reorg protection depth, the host panics because L1 inclusion is not
  -- supported, for any users, markets and target chains.
  pub ethereum_l1_inclusion_refused :
      (users markets : List Address) (target_chain_ids : List ℕ) (chain_id : ℕ) (fallback : Bool)
      (name : String) (testnet : Bool) (url ethereum_url : String)
      (commitment : SequencerCommitment X) (block top : ℕ) (input : X.EvmInput eth)
      → is_ethereum_chain chain_id ≡ true
      → get_chain_params chain_id ≡ ok (name, testnet)
      → get_rpc_url N name fallback testnet ≡ ok url
      → get_rpc_url N "ETHEREUM" fallback (is_sepolia_chain chain_id) ≡ ok ethereum_url
      → Announced N
          (get_default_sequencer_chain chain_id (is_sepolia_chain chain_id))
          fallback
          commitment
          block
      → Recorded N
          (if is_sepolia_chain chain_id then optimism_sepolia_chain_id else optimism_chain_id)
          fallback
          block
          input
          top
      → (if is_sepolia_chain chain_id
          then reorg_protection_depth_ethereum_sepolia
          else reorg_protection_depth_ethereum)
        ≤ top
      → get_proof_data_zkvm_input N users markets target_chain_ids chain_id true fallback
        ≡ err l1_inclusion_unsupported
  unfolding get_proof_data_zkvm_input get_request get_sequencer_commitments_and_blocks
      committed_block get_l1block_call_inputs_and_l1_block_numbers
      get_env_input_for_l1_inclusion_and_l2_block_number l1_block_for
  ethereum_l1_inclusion_refused users markets target_chain_ids chain_id fallback name testnet url
        ethereum_url commitment block top input ethereum params endpoint ethereum_endpoint answered
        recorded deep =
      let (no_opstack, no_linea) = not_l2 chain_id ethereum in
      rw
        (
          params,
          endpoint,
          no_opstack,
          ethereum,
          get_current_sequencer_commitment-Announced N _ fallback commitment block answered,
          get_l1block_call_input-Recorded N _ fallback block input top recorded,
          ethereum_endpoint,
          no_linea,
          sub_uint-eq-ok X.overflow_checks 64 top _ deep,
        )
        refl

  -- The test of `sort_and_verify_relevant_params` expects Ethereum's environment for a Linea request
  -- with an Ethereum input. Where both environments are built, called and taken as inputs, and the guest
  -- builds Linea's, the test passes only if the two blocks have the same hash, since the returned
  -- environment is Linea's, and otherwise ends in its last assertion.
  pub sort_params_linea_l1_inclusion_lem :
      (account_info : Address → N.HostEnv eth → Result Report (N.HostEnv eth))
      (linea_rpc eth_rpc : N.Url)
      (linea_env ethereum_env linea_called ethereum_called : N.HostEnv eth)
      (linea_input ethereum_input : X.EvmInput eth) (env : X.EvmEnv eth)
      → N.parse "https://rpc.linea.build" ≡ ok linea_rpc
      → N.parse "https://ethereum-rpc.publicnode.com" ≡ ok eth_rpc
      → N.build linea_rpc latest linea_mainnet_chain_spec ≡ ok linea_env
      → N.build eth_rpc latest eth_mainnet_chain_spec ≡ ok ethereum_env
      → account_info 0 linea_env ≡ ok linea_called
      → account_info 0 ethereum_env ≡ ok ethereum_called
      → N.into_input eth linea_called ≡ ok linea_input
      → N.into_input eth ethereum_called ≡ ok ethereum_input
      → X.into_env eth linea_input linea_mainnet_chain_spec ≡ ok env
      → test_sort_params_linea_l1_inclusion_bug N account_info ≡ (
          if X.env_seal env == X.hash_slow (N.header ethereum_env)
          then ok tt
          else err assertion_failed)
  unfolding test_sort_params_linea_l1_inclusion_bug sort_and_verify_relevant_params
      spec_for_viewcall
  sort_params_linea_l1_inclusion_lem account_info linea_rpc eth_rpc linea_env ethereum_env
        linea_called ethereum_called linea_input ethereum_input env parsed eth_parsed built
        eth_built called eth_called taken eth_taken rebuilt =
      rw (parsed, eth_parsed, built, eth_built, called, eth_called, taken, eth_taken, rebuilt)
        (ground arith)

abbrev All {ℓ} : {A : Type 0} → (A → Type ℓ) → List A → Type ℓ
All P [] = Unit
All P (x ∷ xs) = P x × All P xs

for_each_iff :
    {A : Type 0} (body : A → Outcome (Unit {0})) (P : A → Type 0)
    → ((x : A) → (body x ≡ ok tt) ↔ P x)
    → (xs : List A) → (for_each xs body ≡ ok tt) ↔ All P xs
unfolding for_each
for_each_iff body P each [] = (λ _. tt, λ _. refl)
for_each_iff body P each (x ∷ xs) = (
  λ h.
      bind_ok (body x) (λ _. for_each xs body) h
        λ _ first rest. ((each x).0 first, (for_each_iff body P each xs).0 rest),
  λ (first, rest). rw ((each x).1 first) ((for_each_iff body P each xs).1 rest),
)

module _ {X : Externals} (N : Network X) (user market : Address) where
  -- A round prepares an input, or is the one that is skipped.
  abbrev RoundPasses : ℕ → Bool → Bool → Type 0
  RoundPasses chain_id l1_inclusion fallback =
      ((chain_id == ethereum_chain_id && l1_inclusion) ≡ true)
      ⊎ ((input : Bytes) × (get_proof_data_zkvm_input N (user ∷ []) (market ∷ []) valid_chain_ids
              chain_id l1_inclusion fallback
            ≡ ok input))

  round_iff :
      (chain_id : ℕ) (l1_inclusion fallback : Bool)
      → (zkvm_input_round N user market chain_id l1_inclusion fallback ≡ ok tt)
        ↔ RoundPasses chain_id l1_inclusion fallback
  unfolding zkvm_input_round
  round_iff chain_id l1_inclusion fallback =
      elim (Bool-cases (chain_id == ethereum_chain_id && l1_inclusion)) [
        | inl skipped ↦ rw skipped (λ _. inl refl, λ _. refl)
        | inr run ↦ rw run (
          λ h.
              bind_ok
                (get_proof_data_zkvm_input N (user ∷ []) (market ∷ []) valid_chain_ids chain_id
                  l1_inclusion fallback)
                (λ _. ok tt) h λ input prepared _. inr (input, prepared),
          λ passes. elim passes [ inl e ↦ cc | inr (input, prepared) ↦ rw prepared refl ],
        )
      ]

  -- The test of the whole input passes exactly where an input is prepared for each of the four chains,
  -- with and without L1 inclusion and fallback, but for Ethereum with L1 inclusion.
  zkvm_input_test_iff :
      (test_get_proof_data_zkvm_input N user market ≡ ok tt)
      ↔ All
          (λ chain_id. All (λ l1_inclusion. All (RoundPasses chain_id l1_inclusion) both) both)
          valid_chain_ids
  unfolding test_get_proof_data_zkvm_input
  zkvm_input_test_iff =
      for_each_iff _ _
        (λ chain_id.
          for_each_iff _ _ (λ l1_inclusion. for_each_iff _ _ (round_iff chain_id l1_inclusion) both)
            both)
        valid_chain_ids
