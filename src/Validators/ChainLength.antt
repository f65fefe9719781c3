-- ===== src/Validators/ChainLength.antt =====
-- `validate_chain_length`: enough linking blocks, each linked by its parent hash, from the
-- historical block to the validated one.
pub mod Linked
use malda_lending_fuzz.Prelude.{
  ℕ, List, [], ◌∷◌, length, leb, ◌==◌, if◌then◌else◌, Outcome, ok, err, ◌>>=◌, ◌>>◌, assert,
  invalid_chain_id, chain_too_short, blocks_not_hashlinked, last_hash_mismatch,
}
use malda_lending_fuzz.Bytes.{B256}
use malda_lending_fuzz.Constants.{
  optimism_chain_id, base_chain_id, linea_chain_id, ethereum_chain_id, optimism_sepolia_chain_id,
  base_sepolia_chain_id, linea_sepolia_chain_id, ethereum_sepolia_chain_id,
  reorg_protection_depth_optimism, reorg_protection_depth_base, reorg_protection_depth_linea,
  reorg_protection_depth_ethereum, reorg_protection_depth_optimism_sepolia,
  reorg_protection_depth_base_sepolia, reorg_protection_depth_linea_sepolia,
  reorg_protection_depth_ethereum_sepolia,
}
use malda_lending_fuzz.Externals.{Externals}

-- The `match` on the chain that gives the depth.
unfoldable pub required_depth : ℕ → Outcome ℕ
required_depth chain_id =
    if chain_id == optimism_chain_id
    then ok reorg_protection_depth_optimism
    else if chain_id == base_chain_id
    then ok reorg_protection_depth_base
    else if chain_id == linea_chain_id
    then ok reorg_protection_depth_linea
    else if chain_id == ethereum_chain_id
    then ok reorg_protection_depth_ethereum
    else if chain_id == optimism_sepolia_chain_id
    then ok reorg_protection_depth_optimism_sepolia
    else if chain_id == base_sepolia_chain_id
    then ok reorg_protection_depth_base_sepolia
    else if chain_id == linea_sepolia_chain_id
    then ok reorg_protection_depth_linea_sepolia
    else if chain_id == ethereum_sepolia_chain_id
    then ok reorg_protection_depth_ethereum_sepolia
    else err invalid_chain_id

module _ (X : Externals) where
  -- The loop over the linking blocks; it returns the last `previous_hash`.
  unfoldable pub check_links : B256 → List X.Header → Outcome B256
  check_links previous_hash [] = ok previous_hash
  check_links previous_hash (header ∷ linking_blocks) = do
    assert (X.parent_hash header == previous_hash) blocks_not_hashlinked
    check_links (X.hash_slow header) linking_blocks

  unfoldable pub validate_chain_length : ℕ → B256 → List X.Header → B256 → Outcome (Unit {0})
  validate_chain_length chain_id historical_hash linking_blocks current_hash = do
    depth ← required_depth chain_id
    assert (leb depth (length linking_blocks)) chain_too_short
    last_hash ← check_links historical_hash linking_blocks
    assert (last_hash == current_hash) last_hash_mismatch
