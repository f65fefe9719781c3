-- ===== src/Host/ZkvmInput/Prepared.antt =====
-- What a prepared request holds: the inputs that the guest asks for, chain by chain.
use malda_lending_fuzz.Prelude.{
  ℕ, ◌≡◌, refl, ap, ◌∙◌, arith, Bool, true, false, not, ◌&&◌, ◌||◌, String, Option, List, is_some,
  ok, ok_unique, bind_ok, assert, ltb, library_panic, ◌^◌, if_ok, expect, unwrap_none,
}
use malda_lending_fuzz.Bytes.{Address, sub_uint}
use malda_lending_fuzz.Externals.{Externals, eth, op}
use malda_lending_fuzz.Validators.ProofCall.{Request}
use malda_lending_fuzz.Host.Chains.{
  get_chain_params, is_opstack_chain, is_linea_chain, is_ethereum_chain, get_reorg_protection_depth,
  get_default_sequencer_chain,
}
use malda_lending_fuzz.Host.Network.{
  Network, latest, get_rpc_url, get_opstack_config, eth_env, op_env, call_preflight, env_into_input,
  at_number, for_proof_data,
}
use malda_lending_fuzz.Host.Sequencer.{
  CommitmentsAndBlocks, get_sequencer_commitments_and_blocks, committed_block, latest_block,
  get_current_sequencer_commitment,
}
use malda_lending_fuzz.Host.L1Block.{
  L1BlockInputs, get_l1block_call_input, get_l1block_call_inputs_and_l1_block_numbers,
}
use malda_lending_fuzz.Host.LinkingBlocks.{get_linking_blocks}
use malda_lending_fuzz.Host.DisputeGame.{
  get_env_input_for_opstack_dispute_game, get_op_env_commitment, check_dispute_game,
}
use malda_lending_fuzz.Host.L1Inclusion.{
  get_env_input_for_l1_inclusion_and_l2_block_number, get_env_input_for_linea_l1_call, l1_block_for,
  message_service_address,
}
use malda_lending_fuzz.Host.CallInput.{
  get_proof_data_call_input, call_input_by_game, call_input_by_block, final_chain_url,
}
use malda_lending_fuzz.Host.ZkvmInput.{get_request, is_sepolia_chain, block_to_prove, linking_chain}

module _ {X : Externals} (N : Network X) where
  committed_block-inputs :
      (chain_id : ℕ) (fallback : Bool) (c : CommitmentsAndBlocks X)
      → committed_block N chain_id fallback ≡ ok c
      → is_some c.commitment ≡ true
  unfolding committed_block
  committed_block-inputs chain_id fallback c h =
      bind_ok (get_current_sequencer_commitment N chain_id fallback) _ h λ p e h₁. ground arith

  commitments-inputs :
      (chain_id : ℕ) (rpc_url : String) (is_sepolia l1_inclusion fallback : Bool)
      (c : CommitmentsAndBlocks X)
      → get_sequencer_commitments_and_blocks N chain_id rpc_url is_sepolia l1_inclusion fallback
        ≡ ok c
      → is_some c.commitment ≡ not (is_linea_chain chain_id && not l1_inclusion)
  unfolding get_sequencer_commitments_and_blocks latest_block is_opstack_chain is_linea_chain
      is_ethereum_chain
  commitments-inputs chain_id rpc_url is_sepolia l1_inclusion fallback c h =
      if_ok
        (is_opstack_chain chain_id
          || is_ethereum_chain chain_id
          || (is_linea_chain chain_id && l1_inclusion))
        _ _ h
        (λ committed h₁.
          if_ok (not l1_inclusion && is_opstack_chain chain_id) _ _ h₁
            (λ own h₂. committed_block-inputs chain_id fallback c h₂ ∙ ground arith)
            (λ default h₂.
              committed_block-inputs (get_default_sequencer_chain chain_id is_sepolia) fallback c h₂
              ∙ ground arith))
        (λ not_committed h₁.
          if_ok (is_linea_chain chain_id) _ _ h₁
            (λ linea h₂. bind_ok (eth_env N rpc_url latest _) _ h₂ λ env e h₃. ground arith)
            (λ other h₂. absurd (cc)))

  l1_block-inputs :
      (chain_id : ℕ) (is_sepolia l1_inclusion : Bool) (block block_2 : Option ℕ) (fallback : Bool)
      (l1 : L1BlockInputs X)
      → get_l1block_call_inputs_and_l1_block_numbers N chain_id is_sepolia l1_inclusion block
          block_2 fallback
        ≡ ok l1
      → is_some l1.l1_block_call_input_1 ≡ (is_ethereum_chain chain_id || l1_inclusion)
  unfolding get_l1block_call_inputs_and_l1_block_numbers
  l1_block-inputs chain_id is_sepolia l1_inclusion block block_2 fallback l1 h =
      if_ok (is_ethereum_chain chain_id || l1_inclusion) _ _ h
        (λ asked h₁. bind_ok (expect block unwrap_none) _ h₁ λ b e h₂.
          bind_ok (get_l1block_call_input N (at_number b) _ fallback) _ h₂ λ p e' h₃. ground arith)
        (λ not_asked h₁. ground arith)

  call_input-inputs :
      (chain_id : ℕ) (chain_url : String) (block : ℕ) (users markets : List Address)
      (target_chain_ids : List ℕ) (l1_inclusion fallback : Bool) (a : Option (X.EvmInput eth))
      (b : Option (X.EvmInput op))
      → get_proof_data_call_input N chain_id chain_url block users markets target_chain_ids
          l1_inclusion fallback
        ≡ ok (a, b)
      → (is_some b ≡ (is_opstack_chain chain_id && l1_inclusion))
        × (is_some a ≡ not (is_opstack_chain chain_id && l1_inclusion))
  unfolding get_proof_data_call_input call_input_by_game call_input_by_block
  call_input-inputs chain_id chain_url block users markets target_chain_ids l1_inclusion fallback a
        b h =
      bind_ok (get_reorg_protection_depth chain_id) _ h λ depth e h₁.
        bind_ok (sub_uint X.overflow_checks 64 block depth) _ h₁ λ protected e' h₂.
          if_ok (is_opstack_chain chain_id && l1_inclusion) _ _ h₂
            (λ by_game h₃.
              bind_ok (get_opstack_config N chain_id (not fallback)) _ h₃ λ config e₁ h₄.
                bind_ok (op_env N for_proof_data config.1 config.0 config.2) _ h₄ λ env e₂ h₅.
                  bind_ok (call_preflight N op env _ _) _ h₅ λ called e₃ h₆.
                    bind_ok (env_into_input N op called.0) _ h₆ λ input e₄ h₇. ground arith)
            (λ by_block h₃.
              bind_ok (final_chain_url N chain_id chain_url fallback) _ h₃ λ url e₁ h₄.
                bind_ok (eth_env N url (at_number protected) _) _ h₄ λ env e₂ h₅.
                  bind_ok (call_preflight N eth env _ _) _ h₅ λ called e₃ h₆.
                    bind_ok (env_into_input N eth called.0) _ h₆ λ input e₄ h₇. ground arith)

  l1_inclusion-inputs :
      (chain_id : ℕ) (is_sepolia l1_inclusion : Bool) (ethereum_block : Option ℕ) (fallback : Bool)
      (a : Option (X.EvmInput eth)) (b : Option ℕ)
      → get_env_input_for_l1_inclusion_and_l2_block_number N chain_id is_sepolia l1_inclusion
          ethereum_block fallback
        ≡ ok (a, b)
      → (is_some a ≡ l1_inclusion) × ((is_ethereum_chain chain_id && l1_inclusion) ≡ false)
  unfolding get_env_input_for_l1_inclusion_and_l2_block_number
      get_env_input_for_opstack_dispute_game get_env_input_for_linea_l1_call is_opstack_chain
      is_linea_chain is_ethereum_chain
  l1_inclusion-inputs chain_id is_sepolia false ethereum_block fallback a b h = ground arith
  l1_inclusion-inputs chain_id is_sepolia true ethereum_block fallback a b h =
      bind_ok (get_rpc_url N "ETHEREUM" fallback is_sepolia) _ h λ url e h₁.
        bind_ok (l1_block_for N chain_id is_sepolia ethereum_block) _ h₁ λ l1_block e' h₂.
          if_ok (is_opstack_chain chain_id) _ _ h₂
            (λ opstack h₃. bind_ok (get_opstack_config N chain_id fallback) _ h₃ λ config e₁ h₄.
              bind_ok (eth_env N config.0 (at_number l1_block) _) _ h₄ λ env e₂ h₅.
                bind_ok (get_op_env_commitment N chain_id fallback) _ h₅ λ commitment e₃ h₆.
                  bind_ok (check_dispute_game N chain_id env commitment) _ h₆ λ checked e₄ h₇.
                    bind_ok (env_into_input N eth checked) _ h₇ λ input e₅ h₈. ground arith)
            (λ not_opstack h₃.
              if_ok (is_linea_chain chain_id) _ _ h₃
                (λ linea h₄. bind_ok (message_service_address chain_id) _ h₄ λ service e₁ h₅.
                  bind_ok (eth_env N url (at_number l1_block) _) _ h₅ λ env e₂ h₆.
                    bind_ok (call_preflight N eth env service _) _ h₆ λ called e₃ h₇.
                      bind_ok (assert (ltb called.1 (2 ^ 64)) library_panic) _ h₇ λ _ small h₈.
                        bind_ok (env_into_input N eth called.0) _ h₈ λ input e₄ h₉. ground arith)
                (λ other h₄. absurd (cc)))

  -- A prepared request repeats the arguments, and holds each input exactly where the guest asks for
  -- it: the OpStack environment for an OpStack chain with L1 inclusion and the chain's environment
  -- otherwise, the L1Block input for Ethereum or with L1 inclusion, the Ethereum environment with L1
  -- inclusion, and the commitment unless the chain is Linea without L1 inclusion. No request for
  -- Ethereum with L1 inclusion is prepared.
  pub get_request-inputs :
      (users markets : List Address) (target_chain_ids : List ℕ) (chain_id : ℕ)
      (l1_inclusion fallback : Bool) (r : Request X)
      → get_request N users markets target_chain_ids chain_id l1_inclusion fallback ≡ ok r
      → (r.chain_id ≡ chain_id)
        × (r.account ≡ users)
        × (r.asset ≡ markets)
        × (r.target_chain_ids ≡ target_chain_ids)
        × (is_some r.op_evm_input ≡ (is_opstack_chain chain_id && l1_inclusion))
        × (is_some r.env_input ≡ not (is_opstack_chain chain_id && l1_inclusion))
        × (is_some r.env_op_input ≡ (is_ethereum_chain chain_id || l1_inclusion))
        × (is_some r.env_eth_input ≡ l1_inclusion)
        × (is_some r.sequencer_commitment ≡ not (is_linea_chain chain_id && not l1_inclusion))
        × ((is_ethereum_chain chain_id && l1_inclusion) ≡ false)
  unfolding get_request
  get_request-inputs users markets target_chain_ids chain_id l1_inclusion fallback r h =
      let is_sepolia = is_sepolia_chain chain_id in
      bind_ok (get_chain_params chain_id) _ h λ params e₁ h₁.
        bind_ok (get_rpc_url N params.0 fallback params.1) _ h₁ λ url e₂ h₂.
          bind_ok
            (get_sequencer_commitments_and_blocks N chain_id url is_sepolia l1_inclusion fallback) _
            h₂
            λ fetched e₃ h₃.
              bind_ok
                (get_l1block_call_inputs_and_l1_block_numbers N chain_id is_sepolia l1_inclusion
                  fetched.block fetched.block_2 fallback)
                _ h₃
                λ l1 e₄ h₄.
                  bind_ok
                    (get_env_input_for_l1_inclusion_and_l2_block_number N chain_id is_sepolia
                      l1_inclusion l1.ethereum_block_1 fallback)
                    _ h₄
                    λ (env_input, l2_block) e₅ h₅.
                      bind_ok
                        (block_to_prove chain_id l1_inclusion fetched.block l1.ethereum_block_1
                          l2_block)
                        _ h₅
                        λ block e₆ h₆.
                          bind_ok (linking_chain N chain_id url l1_inclusion fallback) _ h₆
                            λ linking e₇ h₇.
                              bind_ok (get_linking_blocks N linking.0 linking.1 block) _ h₇
                                λ blocks e₈ h₈.
                                  bind_ok
                                    (get_proof_data_call_input N chain_id url block users markets
                                      target_chain_ids l1_inclusion fallback)
                                    _ h₈
                                    λ (call_input, call_input_op) e₉ h₉.
                                      let (ops, envs) =
                                        call_input-inputs chain_id url block users markets
                                          target_chain_ids l1_inclusion fallback call_input
                                          call_input_op e₉ in
                                      let (eths, allowed) =
                                        l1_inclusion-inputs chain_id is_sepolia l1_inclusion
                                          l1.ethereum_block_1 fallback env_input l2_block e₅ in
                                      let l1s =
                                        l1_block-inputs chain_id is_sepolia l1_inclusion
                                          fetched.block fetched.block_2 fallback l1 e₄ in
                                      let commitments =
                                        commitments-inputs chain_id url is_sepolia l1_inclusion
                                          fallback fetched e₃ in
                                      let same = ok_unique h₉ refl in
                                      (
                                        ap (λ (q : Request X). q.chain_id) same,
                                        ap (λ (q : Request X). q.account) same,
                                        ap (λ (q : Request X). q.asset) same,
                                        ap (λ (q : Request X). q.target_chain_ids) same,
                                        ap (λ (q : Request X). is_some q.op_evm_input) same ∙ ops,
                                        ap (λ (q : Request X). is_some q.env_input) same ∙ envs,
                                        ap (λ (q : Request X). is_some q.env_op_input) same ∙ l1s,
                                        ap (λ (q : Request X). is_some q.env_eth_input) same ∙ eths,
                                        ap (λ (q : Request X). is_some q.sequencer_commitment) same
                                            ∙ commitments,
                                        allowed,
                                      )
