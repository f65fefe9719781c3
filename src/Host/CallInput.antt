-- ===== src/Host/CallInput.antt =====
-- `get_proof_data_call_input`: the environment in which the guest repeats the multicall.
pub mod CallData
use malda_lending_fuzz.Prelude.{
  ℕ, ◌^◌, ◌%◌, Bool, true, false, not, ◌&&◌, if◌then◌else◌, String, Option, none, some, List, [],
  ◌∷◌, ◌++◌, map, Outcome, ok, ◌>>=◌,
}
use malda_lending_fuzz.Bytes.{Bytes, Address, to_be_bytes, sub_uint}
use malda_lending_fuzz.Constants.{multicall}
use malda_lending_fuzz.Externals.{Externals, eth, op, linea_mainnet_chain_spec}
use malda_lending_fuzz.Types.Contracts.{Call3, Call, aggregate3}
use malda_lending_fuzz.Validators.Batch.{Query, batch_params}
use malda_lending_fuzz.Host.Chains.{is_opstack_chain, get_chain_params, get_reorg_protection_depth}
use malda_lending_fuzz.Host.Network.{
  Network, at_number, for_proof_data, get_rpc_url, get_opstack_config, eth_env, op_env,
  call_preflight, env_into_input,
}

-- The body of the loop: the chain identifier is cut to 32 bits, behind 28 zero bytes.
unfoldable pub host_call_data : Query → Bytes
host_call_data q =
    (0x07 ∷ 0xd9 ∷ 0x23 ∷ 0xe9 ∷ [])
    ++ (to_be_bytes 32 q.user ++ (to_be_bytes 28 0 ++ to_be_bytes 4 (q.target_chain_id % 2 ^ 32)))

unfoldable pub host_call : Query → Call3
unfolding host_call_data
host_call q = record { target = q.market; allow_failure = false; call_data = host_call_data q }

unfoldable pub host_multicall : List Address → List Address → List ℕ → Call
host_multicall users markets target_chain_ids =
    aggregate3 (map host_call (batch_params users markets target_chain_ids))

module _ {X : Externals} (N : Network X) where
  -- The branch for an OpStack chain with L1 inclusion; it asks for the configuration with
  -- `!fallback`.
  unfoldable pub call_input_by_game :
      ℕ → Call → Bool → Outcome (Option (X.EvmInput eth) × Option (X.EvmInput op))
  call_input_by_game chain_id calls fallback = do
    (l1_rpc_url, optimism_portal, chain_url_final, _) ← get_opstack_config N chain_id (not fallback)
    env ← op_env N for_proof_data optimism_portal l1_rpc_url chain_url_final
    (env_called, _) ← call_preflight N op env multicall calls
    input ← env_into_input N op env_called
    ok (none, some input)

  -- The URL of the other branch.
  unfoldable pub final_chain_url : ℕ → String → Bool → Outcome String
  final_chain_url chain_id chain_url fallback =
      if fallback
      then (do
        (chain_name, is_testnet) ← get_chain_params chain_id
        get_rpc_url N chain_name true is_testnet)
      else ok chain_url

  unfoldable pub call_input_by_block :
      ℕ → String → ℕ → Call → Bool → Outcome (Option (X.EvmInput eth) × Option (X.EvmInput op))
  call_input_by_block chain_id chain_url block_reorg_protected calls fallback = do
    chain_url_final ← final_chain_url chain_id chain_url fallback
    env ← eth_env N chain_url_final (at_number block_reorg_protected) linea_mainnet_chain_spec
    (env_called, _) ← call_preflight N eth env multicall calls
    input ← env_into_input N eth env_called
    ok (some input, none)

  unfoldable pub get_proof_data_call_input :
      ℕ
      → String
      → ℕ
      → List Address
      → List Address
      → List ℕ
      → Bool
      → Bool
      → Outcome (Option (X.EvmInput eth) × Option (X.EvmInput op))
  get_proof_data_call_input chain_id chain_url block users markets target_chain_ids
        validate_l1_inclusion fallback =
      do
        reorg_protection_depth ← get_reorg_protection_depth chain_id
        block_reorg_protected ← sub_uint X.overflow_checks 64 block reorg_protection_depth
        let calls = host_multicall users markets target_chain_ids
        if is_opstack_chain chain_id && validate_l1_inclusion
            then call_input_by_game chain_id calls fallback
            else call_input_by_block chain_id chain_url block_reorg_protected calls fallback
