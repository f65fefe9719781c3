-- ===== src/Poc/Tables.antt =====
-- The chain tests of the host and of the guest, side by side.
use malda_lending_fuzz.Prelude.{ℕ, ◌≡◌, arith, true, false, ◌||◌, ◌==◌}
use malda_lending_fuzz.Constants.{
  optimism_chain_id, optimism_sepolia_chain_id, base_chain_id, base_sepolia_chain_id,
}
use malda_lending_fuzz.Host.Chains.{is_opstack_chain, is_linea_chain, is_ethereum_chain}

pub not_linea :
    (chain_id : ℕ)
    → is_opstack_chain chain_id ≡ true
    → (is_linea_chain chain_id ≡ false) × (is_ethereum_chain chain_id ≡ false)
unfolding is_opstack_chain is_linea_chain is_ethereum_chain
not_linea chain_id opstack = (ground arith, ground arith)

pub not_opstack :
    (chain_id : ℕ)
    → is_linea_chain chain_id ≡ true
    → (is_opstack_chain chain_id ≡ false) × (is_ethereum_chain chain_id ≡ false)
unfolding is_opstack_chain is_linea_chain is_ethereum_chain
not_opstack chain_id linea = (ground arith, ground arith)

pub not_l2 :
    (chain_id : ℕ)
    → is_ethereum_chain chain_id ≡ true
    → (is_opstack_chain chain_id ≡ false) × (is_linea_chain chain_id ≡ false)
unfolding is_opstack_chain is_linea_chain is_ethereum_chain
not_l2 chain_id ethereum = (ground arith, ground arith)

pub opstack_branch :
    (chain_id : ℕ)
    → is_opstack_chain chain_id ≡ true
    → (chain_id == optimism_chain_id
        || chain_id == base_chain_id
        || chain_id == base_sepolia_chain_id
        || chain_id == optimism_sepolia_chain_id)
      ≡ true
unfolding is_opstack_chain
opstack_branch chain_id opstack = ground arith

pub ethereum_branch :
    (chain_id : ℕ)
    → is_ethereum_chain chain_id ≡ true
    → ((chain_id == optimism_chain_id
          || chain_id == base_chain_id
          || chain_id == base_sepolia_chain_id
          || chain_id == optimism_sepolia_chain_id)
        ≡ false)
      × (is_linea_chain chain_id ≡ false)
unfolding is_ethereum_chain is_linea_chain
ethereum_branch chain_id ethereum = (ground arith, ground arith)
