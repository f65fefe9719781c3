-- ===== src/UnitTests/ChainLength.antt =====
-- The unit tests of `validate_chain_length` in crates/malda_utils/src/validators.rs. What they print is
-- left out.
pub mod Refused
use malda_lending_fuzz.Prelude.{
  ℕ, zero, suc, ◌+◌, ◌-◌, List, [], ◌∷◌, ◌==◌, get_elem?, Outcome, err, ◌>>=◌, ◌>>◌, assert,
  assert_ne, expect, index_out_of_range, assertion_failed, chain_validated,
}
use malda_lending_fuzz.Bytes.{B256}
use malda_lending_fuzz.Constants.{base_chain_id, reorg_protection_depth_base}
use malda_lending_fuzz.Externals.{Externals}
use malda_lending_fuzz.Validators.ChainLength.{validate_chain_length}
use malda_lending_fuzz.UnitTests.{Roots, Mocks}

module _ {X : Externals} (M : Mocks X) where
  unfoldable pub create_mock_header : B256 → ℕ → Roots → X.Header
  create_mock_header parent_hash number roots = M.header_of parent_hash number roots

  -- The loops that push a linked block for each number: the blocks, and the last hash.
  unfoldable pub mock_chain : B256 → (number count : ℕ) → (ℕ → Roots) → List X.Header × B256
  mock_chain parent_hash number zero roots = ([], parent_hash)
  mock_chain parent_hash number (suc count) roots =
      let block = create_mock_header parent_hash number (roots number) in
      let (blocks, last) = mock_chain (X.hash_slow block) (number + 1) count roots in
      (block ∷ blocks, last)

  unfoldable pub test_rejects_reorged_block :
      (historical_hash : B256) → (ℕ → Roots) → Roots → Outcome (Unit {0})
  test_rejects_reorged_block historical_hash roots orphan_roots = do
    assert (reorg_protection_depth_base == 2) assertion_failed
    let canonical_chain = (mock_chain historical_hash 1 3 roots).0
    let orphaned_block_hash = X.hash_slow (create_mock_header historical_hash 2 orphan_roots)
    second ← expect (get_elem? canonical_chain 1) index_out_of_range
    assert_ne orphaned_block_hash (X.hash_slow second)
    validate_chain_length X base_chain_id historical_hash canonical_chain orphaned_block_hash
    err chain_validated

  unfoldable pub test_rejects_empty_blocks :
      (historical_hash current_hash : B256) → Outcome (Unit {0})
  test_rejects_empty_blocks historical_hash current_hash = do
    validate_chain_length X base_chain_id historical_hash [] current_hash
    err chain_validated

  unfoldable pub test_rejects_broken_chain_link :
      (historical_hash malicious_parent_hash : B256) → (ℕ → Roots) → Outcome (Unit {0})
  test_rejects_broken_chain_link historical_hash malicious_parent_hash roots = do
    let block_1 = create_mock_header historical_hash 1 (roots 1)
    assert_ne malicious_parent_hash (X.hash_slow block_1)
    let block_2 = create_mock_header malicious_parent_hash 2 (roots 2)
    let rest = mock_chain (X.hash_slow block_2) 3 4 roots
    validate_chain_length X base_chain_id historical_hash (block_1 ∷ block_2 ∷ rest.0) rest.1
    err chain_validated

  unfoldable pub test_rejects_mismatched_historical_hash :
      (correct_historical_hash random_historical_hash : B256) → (ℕ → Roots) → Outcome (Unit {0})
  test_rejects_mismatched_historical_hash correct_historical_hash random_historical_hash roots = do
    let canonical = mock_chain correct_historical_hash 1 7 roots
    assert_ne random_historical_hash correct_historical_hash
    validate_chain_length X base_chain_id random_historical_hash canonical.0 canonical.1
    err chain_validated

  unfoldable pub test_rejects_chain_too_short :
      (historical_hash : B256) → (ℕ → Roots) → Outcome (Unit {0})
  test_rejects_chain_too_short historical_hash roots = do
    let too_short = mock_chain historical_hash 1 (reorg_protection_depth_base - 1) roots
    validate_chain_length X base_chain_id historical_hash too_short.0 too_short.1
    err chain_validated
