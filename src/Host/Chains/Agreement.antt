-- ===== src/Host/Chains/Agreement.antt =====
-- The host's tables against each other and against the guest's.
use malda_lending_fuzz.Prelude.{ℕ, ◌+◌, ◌≡◌, refl, arith, Bool, true, false, ok, err}
use malda_lending_fuzz.Validators.ChainLength.{required_depth}
use malda_lending_fuzz.Validators.DisputeGame.{portal_address}
use malda_lending_fuzz.Host.Chains.{
  config_portal, get_portal_address, is_opstack_chain, is_linea_chain, is_ethereum_chain,
  get_reorg_protection_depth,
}

abbrev pub count : Bool → ℕ
count true = 1
count false = 0

-- Every chain identifier falls into one class or none: it is an OpStack chain, a Linea chain or an
-- Ethereum chain, and no two of these, exactly if the guest knows a reorg protection depth for it;
-- then the host prepares as deep a chain of blocks as the guest asks for.
pub get_reorg_protection_depth_lem :
    (chain_id : ℕ)
    → (get_reorg_protection_depth chain_id ≡ required_depth chain_id)
      × (count (is_opstack_chain chain_id)
            + count (is_linea_chain chain_id)
            + count (is_ethereum_chain chain_id)
          ≡ (elim (required_depth chain_id) [ ok _ ↦ 1 | err _ ↦ 0 ]))
unfolding get_reorg_protection_depth required_depth is_opstack_chain is_linea_chain
    is_ethereum_chain
get_reorg_protection_depth_lem chain_id = (refl, ground arith)

-- The two portal tables of the host agree with the guest's table, and a chain has a portal exactly
-- if the host takes it for an OpStack chain.
pub config_portal_lem :
    (chain_id : ℕ)
    → (config_portal chain_id ≡ portal_address chain_id)
      × (get_portal_address chain_id ≡ portal_address chain_id)
      × (is_opstack_chain chain_id
          ≡ (elim (portal_address chain_id) [ ok _ ↦ true | err _ ↦ false ]))
unfolding config_portal get_portal_address portal_address is_opstack_chain
config_portal_lem chain_id = (ground arith, refl, ground arith)
