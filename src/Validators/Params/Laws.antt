-- ===== src/Validators/Params/Laws.antt =====
-- Which environment, header, chain and flag a request is checked with.
use malda_lending_fuzz.Prelude.{
  ℕ, ◌≡◌, refl, Bool, true, false, ◌&&◌, Option, none, some, List, [], ◌∷◌, ◌++◌, is_some,
  if◌then◌else◌, ok, bind_ok, expect, expect-eq-ok, env_eth_input_none, op_evm_input_none,
  env_input_none,
}
use malda_lending_fuzz.Externals.{Externals, eth, op, eth_mainnet_chain_spec, op_mainnet_chain_spec}
use malda_lending_fuzz.Validators.BlockHash.{ethereum_of_opstack}
use malda_lending_fuzz.Validators.Params.{
  RelevantParams, Environments, is_opstack, spec_for_viewcall, opstack_environments,
  plain_environments, header_to_validate, sort_and_verify_relevant_params,
}
use mathlib.Core.Bool.{and-false}

module _ (X : Externals) where
  header_to_validate-append :
      (blocks : List X.Header) (last env_header : X.Header)
      → header_to_validate X (blocks ++ last ∷ []) env_header ≡ last
  unfolding header_to_validate
  header_to_validate-append [] last env_header = refl
  header_to_validate-append (b ∷ blocks) last env_header = header_to_validate-append blocks last b

  module _ (chain_id : ℕ) (env_input : Option (X.EvmInput eth)) (linking_blocks : List X.Header)
      (env_eth_input : Option (X.EvmInput eth)) (op_evm_input : Option (X.EvmInput op)) where
    -- The two sources of the environments: for an OpStack chain with an Ethereum input, that input
    -- and the OpStack input, with Ethereum's chain for the length; otherwise the view call's input,
    -- with the chain's own specification and the chain itself.
    abbrev pub SortedFrom : Bool → RelevantParams X → Type 0
    SortedFrom true p =
        (eth_input : X.EvmInput eth) × (op_input : X.EvmInput op) × (op_env : X.EvmEnv op)
        × (env_eth_input ≡ some eth_input)
        × (X.into_env eth eth_input eth_mainnet_chain_spec ≡ ok p.env_for_viewcall)
        × (op_evm_input ≡ some op_input)
        × (X.into_env op op_input op_mainnet_chain_spec ≡ ok op_env)
        × (p.op_env_for_viewcall_with_l1_inclusion ≡ some op_env)
        × (p.op_env_commitment ≡ some (X.env_commitment op op_env))
        × (ethereum_of_opstack chain_id ≡ ok p.chain_id_for_length_validation)
    SortedFrom false p =
        (input : X.EvmInput eth) × (env_input ≡ some input)
        × (X.into_env eth input (spec_for_viewcall chain_id) ≡ ok p.env_for_viewcall)
        × (p.op_env_for_viewcall_with_l1_inclusion ≡ none)
        × (p.op_env_commitment ≡ none)
        × (p.chain_id_for_length_validation ≡ chain_id)

    environments_sound :
        (flag : Bool) (envs : Environments X) (p : RelevantParams X)
        → (if flag
            then opstack_environments X chain_id env_eth_input op_evm_input
            else plain_environments X chain_id env_input)
          ≡ ok envs
        → p.env_for_viewcall ≡ envs.viewcall
        → p.op_env_for_viewcall_with_l1_inclusion ≡ envs.op_viewcall
        → p.op_env_commitment ≡ envs.commitment
        → p.chain_id_for_length_validation ≡ envs.length_chain
        → SortedFrom flag p
    unfolding opstack_environments plain_environments
    environments_sound true envs p h e₁ e₂ e₃ e₄ =
        bind_ok (expect env_eth_input env_eth_input_none) _ h λ eth_input given₁ h₁.
          bind_ok (X.into_env eth eth_input eth_mainnet_chain_spec) _ h₁ λ env built₁ h₂.
            bind_ok (expect op_evm_input op_evm_input_none) _ h₂ λ op_input given₂ h₃.
              bind_ok (X.into_env op op_input op_mainnet_chain_spec) _ h₃ λ op_env built₂ h₄.
                bind_ok (ethereum_of_opstack chain_id) _ h₄ λ length_chain known h₅. (
                  eth_input,
                  op_input,
                  op_env,
                  expect-eq-ok env_eth_input env_eth_input_none given₁,
                  cc,
                  expect-eq-ok op_evm_input op_evm_input_none given₂,
                  built₂,
                  cc,
                  cc,
                  cc,
                )
    environments_sound false envs p h e₁ e₂ e₃ e₄ =
        bind_ok (expect env_input env_input_none) _ h λ input given h₁.
          bind_ok (X.into_env eth input (spec_for_viewcall chain_id)) _ h₁
            λ env built h₂. (input, expect-eq-ok env_input env_input_none given, cc, cc, cc, cc)

    -- Sorted parameters carry the inclusion flag of an Ethereum input that is there, the hash and the
    -- header of their environment, and the environments of their source; the header to validate is
    -- the last linking block, or the environment's own where there is none.
    pub sort_and_verify_sound :
        (p : RelevantParams X)
        → sort_and_verify_relevant_params X chain_id env_input linking_blocks env_eth_input
            op_evm_input
          ≡ ok p
        → SortedFrom (is_opstack chain_id && is_some env_eth_input) p
          × (p.validate_l1_inclusion ≡ is_some env_eth_input)
          × (p.env_header_hash_to_validate ≡ X.env_seal p.env_for_viewcall)
          × (p.env_header_to_validate ≡ X.env_header p.env_for_viewcall)
          × (p.block_header_to_validate
              ≡ header_to_validate X linking_blocks (X.env_header p.env_for_viewcall))
    unfolding sort_and_verify_relevant_params
    sort_and_verify_sound p h =
        bind_ok
          (if is_opstack chain_id && is_some env_eth_input
            then opstack_environments X chain_id env_eth_input op_evm_input
            else plain_environments X chain_id env_input)
          _ h
          λ envs built rest. (
            environments_sound (is_opstack chain_id && is_some env_eth_input) envs p built (cc) (cc)
                (cc) (cc),
            cc,
            cc,
            cc,
            cc,
          )

  -- The parameters of a request without L1 inclusion.
  abbrev pub plain_params : ℕ → List X.Header → X.EvmEnv eth → RelevantParams X
  plain_params chain_id linking_blocks env = record {
    env_for_viewcall = env;
    block_header_to_validate = header_to_validate X linking_blocks (X.env_header env);
    env_header_hash_to_validate = X.env_seal env;
    env_header_to_validate = X.env_header env;
    op_env_for_viewcall_with_l1_inclusion = none;
    op_env_commitment = none;
    chain_id_for_length_validation = chain_id;
    validate_l1_inclusion = false;
  }

  pub sort_and_verify-plain :
      (chain_id : ℕ) (input : X.EvmInput eth) (linking_blocks : List X.Header) (env : X.EvmEnv eth)
      → X.into_env eth input (spec_for_viewcall chain_id) ≡ ok env
      → sort_and_verify_relevant_params X chain_id (some input) linking_blocks none none
        ≡ ok (plain_params chain_id linking_blocks env)
  unfolding sort_and_verify_relevant_params plain_environments
  sort_and_verify-plain chain_id input linking_blocks env rebuilt =
      rw (and-false (is_opstack chain_id), rebuilt) refl

  -- The parameters of a request for an OpStack chain with L1 inclusion.
  abbrev pub finalized_params : ℕ → List X.Header → X.EvmEnv eth → X.EvmEnv op → RelevantParams X
  finalized_params ethereum_chain linking_blocks env op_env = record {
    env_for_viewcall = env;
    block_header_to_validate = header_to_validate X linking_blocks (X.env_header env);
    env_header_hash_to_validate = X.env_seal env;
    env_header_to_validate = X.env_header env;
    op_env_for_viewcall_with_l1_inclusion = some op_env;
    op_env_commitment = some (X.env_commitment op op_env);
    chain_id_for_length_validation = ethereum_chain;
    validate_l1_inclusion = true;
  }

  pub sort_and_verify-finalized :
      (chain_id ethereum_chain : ℕ) (eth_input : X.EvmInput eth) (op_input : X.EvmInput op)
      (linking_blocks : List X.Header) (env : X.EvmEnv eth) (op_env : X.EvmEnv op)
      → is_opstack chain_id ≡ true
      → ethereum_of_opstack chain_id ≡ ok ethereum_chain
      → X.into_env eth eth_input eth_mainnet_chain_spec ≡ ok env
      → X.into_env op op_input op_mainnet_chain_spec ≡ ok op_env
      → sort_and_verify_relevant_params X chain_id none linking_blocks
          (some eth_input)
          (some op_input)
        ≡ ok (finalized_params ethereum_chain linking_blocks env op_env)
  unfolding sort_and_verify_relevant_params opstack_environments
  sort_and_verify-finalized chain_id ethereum_chain eth_input op_input linking_blocks env op_env
        opstack ethereum built op_built =
      rw (opstack, built, op_built, ethereum) refl

  -- Those of a request for a Linea chain with L1 inclusion: without it but for the flag.
  abbrev pub posted_params : ℕ → List X.Header → X.EvmEnv eth → RelevantParams X
  posted_params chain_id linking_blocks env = record {
    env_for_viewcall = env;
    block_header_to_validate = header_to_validate X linking_blocks (X.env_header env);
    env_header_hash_to_validate = X.env_seal env;
    env_header_to_validate = X.env_header env;
    op_env_for_viewcall_with_l1_inclusion = none;
    op_env_commitment = none;
    chain_id_for_length_validation = chain_id;
    validate_l1_inclusion = true;
  }

  pub sort_and_verify-posted :
      (chain_id : ℕ) (input eth_input : X.EvmInput eth) (linking_blocks : List X.Header)
      (env : X.EvmEnv eth)
      → is_opstack chain_id ≡ false
      → X.into_env eth input (spec_for_viewcall chain_id) ≡ ok env
      → sort_and_verify_relevant_params X chain_id (some input) linking_blocks (some eth_input) none
        ≡ ok (posted_params chain_id linking_blocks env)
  unfolding sort_and_verify_relevant_params plain_environments
  sort_and_verify-posted chain_id input eth_input linking_blocks env not_opstack rebuilt =
      rw (not_opstack, rebuilt) refl
