-- ===== src/Host/Chains.antt =====
-- The host's tables over chain identifiers.
pub mod Agreement
use malda_lending_fuzz.Prelude.{
  ℕ, Bool, true, false, ◌||◌, ◌==◌, if◌then◌else◌, String, Outcome, ok, err, invalid_chain_id,
}
use malda_lending_fuzz.Bytes.{Address}
use malda_lending_fuzz.Constants.{
  ethereum_chain_id, optimism_chain_id, linea_chain_id, base_chain_id, ethereum_sepolia_chain_id,
  optimism_sepolia_chain_id, linea_sepolia_chain_id, base_sepolia_chain_id, optimism_portal,
  optimism_sepolia_portal, base_portal, base_sepolia_portal, reorg_protection_depth_optimism,
  reorg_protection_depth_base, reorg_protection_depth_linea, reorg_protection_depth_ethereum,
  reorg_protection_depth_optimism_sepolia, reorg_protection_depth_base_sepolia,
  reorg_protection_depth_linea_sepolia, reorg_protection_depth_ethereum_sepolia,
}

-- The name of the chain, and whether it is a testnet.
unfoldable pub get_chain_params : ℕ → Outcome (String × Bool)
get_chain_params chain_id =
    if chain_id == base_chain_id
    then ok ("BASE", false)
    else if chain_id == optimism_chain_id
    then ok ("OPTIMISM", false)
    else if chain_id == linea_chain_id
    then ok ("LINEA", false)
    else if chain_id == ethereum_chain_id
    then ok ("ETHEREUM", false)
    else if chain_id == optimism_sepolia_chain_id
    then ok ("OPTIMISM", true)
    else if chain_id == base_sepolia_chain_id
    then ok ("BASE", true)
    else if chain_id == linea_sepolia_chain_id
    then ok ("LINEA", true)
    else if chain_id == ethereum_sepolia_chain_id
    then ok ("ETHEREUM", true)
    else err invalid_chain_id

-- The `match` of `get_opstack_config`.
unfoldable pub config_portal : ℕ → Outcome Address
config_portal chain_id =
    if chain_id == optimism_chain_id
    then ok optimism_portal
    else if chain_id == optimism_sepolia_chain_id
    then ok optimism_sepolia_portal
    else if chain_id == base_chain_id
    then ok base_portal
    else if chain_id == base_sepolia_chain_id
    then ok base_sepolia_portal
    else err invalid_chain_id

unfoldable pub get_portal_address : ℕ → Outcome Address
get_portal_address chain_id =
    if chain_id == optimism_sepolia_chain_id
    then ok optimism_sepolia_portal
    else if chain_id == base_sepolia_chain_id
    then ok base_sepolia_portal
    else if chain_id == optimism_chain_id
    then ok optimism_portal
    else if chain_id == base_chain_id
    then ok base_portal
    else err invalid_chain_id

unfoldable pub is_opstack_chain : ℕ → Bool
is_opstack_chain chain_id =
    chain_id == optimism_chain_id
    || chain_id == base_chain_id
    || chain_id == optimism_sepolia_chain_id
    || chain_id == base_sepolia_chain_id

unfoldable pub is_linea_chain : ℕ → Bool
is_linea_chain chain_id = chain_id == linea_chain_id || chain_id == linea_sepolia_chain_id

unfoldable pub is_ethereum_chain : ℕ → Bool
is_ethereum_chain chain_id = chain_id == ethereum_chain_id || chain_id == ethereum_sepolia_chain_id

unfoldable pub get_default_sequencer_chain : ℕ → Bool → ℕ
get_default_sequencer_chain _ is_sepolia =
    if is_sepolia then optimism_sepolia_chain_id else optimism_chain_id

unfoldable pub get_reorg_protection_depth : ℕ → Outcome ℕ
get_reorg_protection_depth chain_id =
    if chain_id == optimism_chain_id
    then ok reorg_protection_depth_optimism
    else if chain_id == base_chain_id
    then ok reorg_protection_depth_base
    else if chain_id == linea_chain_id
    then ok reorg_protection_depth_linea
    else if chain_id == ethereum_chain_id
    then ok reorg_protection_depth_ethereum
    else if chain_id == optimism_sepolia_chain_id
    then ok reorg_protection_depth_optimism_sepolia
    else if chain_id == base_sepolia_chain_id
    then ok reorg_protection_depth_base_sepolia
    else if chain_id == linea_sepolia_chain_id
    then ok reorg_protection_depth_linea_sepolia
    else if chain_id == ethereum_sepolia_chain_id
    then ok reorg_protection_depth_ethereum_sepolia
    else err invalid_chain_id
