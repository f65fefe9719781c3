-- ===== src/Validators/Params.antt =====
-- `sort_and_verify_relevant_params`: which environment, which block header and which chain the
-- later checks are about.
pub mod Laws
use malda_lending_fuzz.Prelude.{
  ℕ, Bool, ◌&&◌, ◌||◌, Option, none, some, List, [], ◌∷◌, ◌==◌, is_some, if◌then◌else◌, Outcome, ok,
  ◌>>=◌, expect, env_eth_input_none, op_evm_input_none, env_input_none,
}
use malda_lending_fuzz.Bytes.{B256}
use malda_lending_fuzz.Constants.{
  optimism_chain_id, base_chain_id, optimism_sepolia_chain_id, base_sepolia_chain_id,
  linea_chain_id, linea_sepolia_chain_id,
}
use malda_lending_fuzz.Externals.{
  Externals, eth, op, ChainSpec, eth_mainnet_chain_spec, op_mainnet_chain_spec,
  linea_mainnet_chain_spec,
}
use malda_lending_fuzz.Validators.BlockHash.{ethereum_of_opstack}

-- The tuple that the function returns.
pub record RelevantParams (X : Externals) : Type 0 where
  pub env_for_viewcall : X.EvmEnv eth
  pub block_header_to_validate : X.Header
  pub env_header_hash_to_validate : B256
  pub env_header_to_validate : X.Header
  pub op_env_for_viewcall_with_l1_inclusion : Option (X.EvmEnv op)
  pub op_env_commitment : Option X.Commitment
  pub chain_id_for_length_validation : ℕ
  pub validate_l1_inclusion : Bool

-- The four values that the branch on the chain gives.
record Environments (X : Externals) : Type 0 where
  viewcall : X.EvmEnv eth
  op_viewcall : Option (X.EvmEnv op)
  commitment : Option X.Commitment
  length_chain : ℕ

abbrev pub is_opstack : ℕ → Bool
is_opstack chain_id =
    chain_id == optimism_chain_id
    || chain_id == base_chain_id
    || chain_id == optimism_sepolia_chain_id
    || chain_id == base_sepolia_chain_id

unfoldable pub spec_for_viewcall : ℕ → ChainSpec
spec_for_viewcall chain_id =
    if chain_id == linea_chain_id
    then linea_mainnet_chain_spec
    else if chain_id == linea_sepolia_chain_id
    then linea_mainnet_chain_spec
    else eth_mainnet_chain_spec

module _ (X : Externals) where
  opstack_environments :
      ℕ → Option (X.EvmInput eth) → Option (X.EvmInput op) → Outcome (Environments X)
  opstack_environments chain_id eth_for_l1_inclusion opstack_for_viewcall = do
    eth_input ← expect eth_for_l1_inclusion env_eth_input_none
    env ← X.into_env eth eth_input eth_mainnet_chain_spec
    op_input ← expect opstack_for_viewcall op_evm_input_none
    op_env ← X.into_env op op_input op_mainnet_chain_spec
    length_chain ← ethereum_of_opstack chain_id
    ok (record {
      viewcall = env;
      op_viewcall = some op_env;
      commitment = some (X.env_commitment op op_env);
      length_chain = length_chain;
    })

  plain_environments : ℕ → Option (X.EvmInput eth) → Outcome (Environments X)
  plain_environments chain_id input_for_viewcall = do
    input ← expect input_for_viewcall env_input_none
    env ← X.into_env eth input (spec_for_viewcall chain_id)
    ok (record { viewcall = env; op_viewcall = none; commitment = none; length_chain = chain_id })

  -- The last linking block, or the environment's own header where there is none.
  unfoldable pub header_to_validate : List X.Header → X.Header → X.Header
  header_to_validate [] env_header = env_header
  header_to_validate (header ∷ linking_blocks) env_header = header_to_validate linking_blocks header

  unfoldable pub sort_and_verify_relevant_params :
      ℕ
      → Option (X.EvmInput eth)
      → List X.Header
      → Option (X.EvmInput eth)
      → Option (X.EvmInput op)
      → Outcome (RelevantParams X)
  unfolding opstack_environments plain_environments
  sort_and_verify_relevant_params chain_id input_for_viewcall linking_blocks eth_for_l1_inclusion
        opstack_for_viewcall =
      do
        let validate_l1_inclusion = is_some eth_for_l1_inclusion
        envs ←
            (if is_opstack chain_id && validate_l1_inclusion
              then opstack_environments chain_id eth_for_l1_inclusion opstack_for_viewcall
              else plain_environments chain_id input_for_viewcall)
        let env_header = X.env_header envs.viewcall
        ok (record {
          env_for_viewcall = envs.viewcall;
          block_header_to_validate = header_to_validate linking_blocks env_header;
          env_header_hash_to_validate = X.env_seal envs.viewcall;
          env_header_to_validate = env_header;
          op_env_for_viewcall_with_l1_inclusion = envs.op_viewcall;
          op_env_commitment = envs.commitment;
          chain_id_for_length_validation = envs.length_chain;
          validate_l1_inclusion = validate_l1_inclusion;
        })
