-- ===== src/Host/L1Inclusion.antt =====
-- `get_env_input_for_l1_inclusion_and_l2_block_number`: what the guest needs of Ethereum.

use malda_lending_fuzz.Prelude.{
  ℕ, ◌^◌, Bool, not, ltb, ◌==◌, if◌then◌else◌, String, Option, none, some, Outcome, ok, err, ◌>>=◌,
  ◌>>◌, assert, expect, invalid_chain_id, unwrap_none, opstack_only, l1_inclusion_unsupported,
  library_panic,
}
use malda_lending_fuzz.Bytes.{Address, sub_uint}
use malda_lending_fuzz.Constants.{
  linea_chain_id, linea_sepolia_chain_id, l1_message_service_linea,
  l1_message_service_linea_sepolia, reorg_protection_depth_ethereum,
  reorg_protection_depth_ethereum_sepolia,
}
use malda_lending_fuzz.Externals.{Externals, eth, eth_mainnet_chain_spec}
use malda_lending_fuzz.Types.Contracts.{current_l2_block_number}
use malda_lending_fuzz.Host.Chains.{is_opstack_chain, is_linea_chain}
use malda_lending_fuzz.Host.Network.{
  Network, at_number, get_rpc_url, eth_env, call_preflight, env_into_input,
}
use malda_lending_fuzz.Host.DisputeGame.{get_env_input_for_opstack_dispute_game}

-- The `match` on the chain.
unfoldable pub message_service_address : ℕ → Outcome Address
message_service_address chain_id =
    if chain_id == linea_chain_id
    then ok l1_message_service_linea
    else if chain_id == linea_sepolia_chain_id
    then ok l1_message_service_linea_sepolia
    else err invalid_chain_id

module _ {X : Externals} (N : Network X) where
  -- A number beyond 64 bits makes `U64::from` panic.
  unfoldable pub get_env_input_for_linea_l1_call :
      ℕ → String → ℕ → Outcome (Option (X.EvmInput eth) × Option ℕ)
  get_env_input_for_linea_l1_call chain_id l1_rpc_url l1_block = do
    service ← message_service_address chain_id
    env ← eth_env N l1_rpc_url (at_number l1_block) eth_mainnet_chain_spec
    (env_called, l2_block_number) ← call_preflight N eth env service current_l2_block_number
    assert (ltb l2_block_number (2 ^ 64)) library_panic
    input ← env_into_input N eth env_called
    ok (some input, some l2_block_number)

  unfoldable pub get_env_input_for_opstack_l1_inclusion :
      ℕ → ℕ → Bool → Outcome (Option (X.EvmInput eth) × Option ℕ)
  get_env_input_for_opstack_l1_inclusion chain_id l1_block fallback =
      if not (is_opstack_chain chain_id)
      then err opstack_only
      else get_env_input_for_opstack_dispute_game N chain_id l1_block fallback

  -- The Ethereum block to read: a Linea chain takes the block itself.
  unfoldable pub l1_block_for : ℕ → Bool → Option ℕ → Outcome ℕ
  l1_block_for chain_id is_sepolia ethereum_block = do
    block ← expect ethereum_block unwrap_none
    if is_linea_chain chain_id
        then ok block
        else sub_uint X.overflow_checks 64 block (
            if is_sepolia
            then reorg_protection_depth_ethereum_sepolia
            else reorg_protection_depth_ethereum)

  unfoldable pub get_env_input_for_l1_inclusion_and_l2_block_number :
      ℕ → Bool → Bool → Option ℕ → Bool → Outcome (Option (X.EvmInput eth) × Option ℕ)
  get_env_input_for_l1_inclusion_and_l2_block_number chain_id is_sepolia l1_inclusion ethereum_block
        fallback =
      if not l1_inclusion then ok (none, none) else (do
        l1_rpc_url ← get_rpc_url N "ETHEREUM" fallback is_sepolia
        l1_block ← l1_block_for chain_id is_sepolia ethereum_block
        if is_opstack_chain chain_id
            then get_env_input_for_opstack_dispute_game N chain_id l1_block fallback
            else if is_linea_chain chain_id
            then get_env_input_for_linea_l1_call chain_id l1_rpc_url l1_block
            else err l1_inclusion_unsupported)
