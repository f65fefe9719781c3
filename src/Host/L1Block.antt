-- ===== src/Host/L1Block.antt =====
-- The Ethereum block that an OpStack chain has recorded, read from its L1Block contract.
use malda_lending_fuzz.Prelude.{
  ℕ, Bool, ◌||◌, if◌then◌else◌, Option, none, some, Outcome, ok, ◌>>=◌, expect, unwrap_none,
}
use malda_lending_fuzz.Constants.{
  optimism_chain_id, optimism_sepolia_chain_id, l1_block_address_opstack,
}
use malda_lending_fuzz.Externals.{Externals, eth, eth_mainnet_chain_spec}
use malda_lending_fuzz.Types.Contracts.{hash, number}
use malda_lending_fuzz.Host.Chains.{get_chain_params, is_ethereum_chain}
use malda_lending_fuzz.Host.Network.{
  Network, BlockNumberOrTag, at_number, get_rpc_url, eth_env, call_preflight, env_into_input,
}

pub record L1BlockInputs (X : Externals) : Type 0 where
  pub l1_block_call_input_1 : Option (X.EvmInput eth)
  pub ethereum_block_1 : Option ℕ
  pub l1_block_call_input_2 : Option (X.EvmInput eth)
  pub ethereum_block_2 : Option ℕ

module _ {X : Externals} (N : Network X) where
  -- The input is taken after the call for the hash; a second environment gives the number.
  unfoldable pub get_l1block_call_input : BlockNumberOrTag → ℕ → Bool → Outcome (X.EvmInput eth × ℕ)
  get_l1block_call_input block chain_id fallback = do
    (chain_name, is_testnet) ← get_chain_params chain_id
    rpc_url ← get_rpc_url N chain_name fallback is_testnet
    env ← eth_env N rpc_url block eth_mainnet_chain_spec
    (env_called, _) ← call_preflight N eth env l1_block_address_opstack hash
    view_call_input_l1_block ← env_into_input N eth env_called
    env_for_number ← eth_env N rpc_url block eth_mainnet_chain_spec
    (_, l1_block) ← call_preflight N eth env_for_number l1_block_address_opstack number
    ok (view_call_input_l1_block, l1_block)

  unfoldable pub get_l1block_call_inputs_and_l1_block_numbers :
      ℕ → Bool → Bool → Option ℕ → Option ℕ → Bool → Outcome (L1BlockInputs X)
  get_l1block_call_inputs_and_l1_block_numbers chain_id is_sepolia l1_inclusion block _ fallback =
      if is_ethereum_chain chain_id || l1_inclusion
      then (do
        let chain_id_1 = if is_sepolia then optimism_sepolia_chain_id else optimism_chain_id
        block_number ← expect block unwrap_none
        (input, ethereum_block) ←
            get_l1block_call_input (at_number block_number) chain_id_1 fallback
        ok (record {
          l1_block_call_input_1 = some input;
          ethereum_block_1 = some ethereum_block;
          l1_block_call_input_2 = none;
          ethereum_block_2 = none;
        }))
      else ok (record {
        l1_block_call_input_1 = none;
        ethereum_block_1 = none;
        l1_block_call_input_2 = none;
        ethereum_block_2 = none;
      })
