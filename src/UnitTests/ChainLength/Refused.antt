-- ===== src/UnitTests/ChainLength/Refused.antt =====
-- What the unit tests of `validate_chain_length` depend on.
use malda_lending_fuzz.Prelude.{
  ℕ, zero, suc, ◌+◌, ◌≡◌, ◌≢◌, ◌↔◌, refl, arith, [], ◌∷◌, length, ◌==◌, ok, err, inl, inr,
  Bool-cases, ==_iff, ==_refl, Outcome, ◌>>◌, sym, chain_validated, assert_ne, chain_too_short,
  blocks_not_hashlinked, last_hash_mismatch,
}
use malda_lending_fuzz.Bytes.{B256}
use malda_lending_fuzz.Constants.{base_chain_id}
use malda_lending_fuzz.Externals.{Externals}
use malda_lending_fuzz.Validators.ChainLength.{required_depth, validate_chain_length}
use malda_lending_fuzz.Validators.ChainLength.Linked.{
  Linked, validate_chain_length-Linked, validate_chain_length_broken,
}
use malda_lending_fuzz.UnitTests.{Roots, Mocks}
use malda_lending_fuzz.UnitTests.ChainLength.{
  create_mock_header, mock_chain, test_rejects_reorged_block, test_rejects_empty_blocks,
  test_rejects_broken_chain_link, test_rejects_mismatched_historical_hash,
  test_rejects_chain_too_short,
}

base_depth : required_depth base_chain_id ≡ ok 2
unfolding required_depth
base_depth = refl

-- A test that asserts that two hashes differ before a call that is to be refused.
abbrev after_assert_ne : B256 → B256 → Outcome (Unit {0}) → Outcome (Unit {0})
after_assert_ne a b m = do assert_ne a b; m; err chain_validated

refused_iff :
    (a b : B256) (m : Outcome (Unit {0}))
    → (a ≢ b → m ≡ err blocks_not_hashlinked)
    → (after_assert_ne a b m ≡ err blocks_not_hashlinked) ↔ (a ≢ b)
refused_iff a b m refused = elim (Bool-cases (a == b)) [
  | inl same ↦ rw same (λ h. cc, λ differ. absurd (differ ((==_iff a b).0 same)))
  | inr differ ↦ (λ _ same. cc (==_refl b), λ apart. rw (differ, refused apart) refl)
]

module _ {X : Externals} (M : Mocks X) where
  mock_chain-Linked :
      (first : B256) (number count : ℕ) (roots : ℕ → Roots)
      → Linked X first
          (mock_chain M first number count roots).0
          (mock_chain M first number count roots).1
  unfolding mock_chain create_mock_header
  mock_chain-Linked first number zero roots = refl
  mock_chain-Linked first number (suc count) roots = (
    M.parent_hash-of first number (roots number),
    mock_chain-Linked (X.hash_slow (create_mock_header M first number (roots number))) (number + 1)
        count roots,
  )

  length-mock_chain :
      (first : B256) (number count : ℕ) (roots : ℕ → Roots)
      → length (mock_chain M first number count roots).0 ≡ count
  unfolding mock_chain
  length-mock_chain first number zero roots = refl
  length-mock_chain first number (suc count) roots = omega (
    arith,
    length-mock_chain (X.hash_slow (create_mock_header M first number (roots number))) (number + 1)
        count roots,
  )

  reorged_iff :
      (historical_hash : B256) (roots : ℕ → Roots) (orphan_roots : Roots)
      → (test_rejects_reorged_block M historical_hash roots orphan_roots ≡ err last_hash_mismatch)
        ↔ ((X.hash_slow (create_mock_header M historical_hash 2 orphan_roots)
              ≢ (mock_chain M historical_hash 1 2 roots).1)
            × (X.hash_slow (create_mock_header M historical_hash 2 orphan_roots)
                ≢ (mock_chain M historical_hash 1 3 roots).1))
  unfolding test_rejects_reorged_block mock_chain
  reorged_iff historical_hash roots orphan_roots =
      let orphan = X.hash_slow (create_mock_header M historical_hash 2 orphan_roots) in
      let chain = mock_chain M historical_hash 1 3 roots in
      rw
        (validate_chain_length-Linked X base_chain_id 2 historical_hash chain.1 orphan chain.0
          base_depth (mock_chain-Linked historical_hash 1 3 roots))
        (ground arith)

  mismatched_iff :
      (correct_historical_hash random_historical_hash : B256) (roots : ℕ → Roots)
      → (test_rejects_mismatched_historical_hash M correct_historical_hash random_historical_hash
            roots
          ≡ err blocks_not_hashlinked)
        ↔ (random_historical_hash ≢ correct_historical_hash)
  unfolding test_rejects_mismatched_historical_hash mock_chain create_mock_header
  mismatched_iff correct_historical_hash random_historical_hash roots =
      let first = create_mock_header M correct_historical_hash 1 (roots 1) in
      let rest = mock_chain M (X.hash_slow first) 2 6 roots in
      refused_iff random_historical_hash correct_historical_hash _ λ differ.
        validate_chain_length_broken X base_chain_id 2 random_historical_hash random_historical_hash
          rest.1 [] first rest.0 base_depth (omega arith) refl
          (rw (M.parent_hash-of correct_historical_hash 1 (roots 1)) λ same. differ (sym same))

  broken_iff :
      (historical_hash malicious_parent_hash : B256) (roots : ℕ → Roots)
      → (test_rejects_broken_chain_link M historical_hash malicious_parent_hash roots
          ≡ err blocks_not_hashlinked)
        ↔ (malicious_parent_hash ≢ X.hash_slow (create_mock_header M historical_hash 1 (roots 1)))
  unfolding test_rejects_broken_chain_link create_mock_header
  broken_iff historical_hash malicious_parent_hash roots =
      let block_1 = create_mock_header M historical_hash 1 (roots 1) in
      let block_2 = create_mock_header M malicious_parent_hash 2 (roots 2) in
      let rest = mock_chain M (X.hash_slow block_2) 3 4 roots in
      refused_iff malicious_parent_hash (X.hash_slow block_1) _ λ differ.
        validate_chain_length_broken X base_chain_id 2 historical_hash (X.hash_slow block_1) rest.1
          (block_1 ∷ []) block_2 rest.0 base_depth (omega arith)
          (M.parent_hash-of historical_hash 1 (roots 1), refl)
          (rw (M.parent_hash-of malicious_parent_hash 2 (roots 2)) differ)

  short_refused :
      (historical_hash current_hash : B256) (roots : ℕ → Roots)
      → (test_rejects_empty_blocks M historical_hash current_hash ≡ err chain_too_short)
        × (test_rejects_chain_too_short M historical_hash roots ≡ err chain_too_short)
  unfolding test_rejects_empty_blocks test_rejects_chain_too_short validate_chain_length
      required_depth mock_chain
  short_refused historical_hash current_hash roots = (refl, refl)

  -- The five unit tests of `validate_chain_length`. The tests with no block and with one block end in
  -- the panic for the length, whatever is drawn. The test of the reorged block ends in the panic for
  -- the last hash exactly where the orphaned block's hash is neither that of the second nor that of the
  -- third block, although it asserts only the first. The tests of the broken link and of the
  -- mismatched historical hash end in the panic for the link exactly where the drawn hash differs from
  -- the one that it replaces.
  pub chain_length_tests_iff :
      (historical_hash other_hash : B256) (roots : ℕ → Roots) (orphan_roots : Roots)
      → (test_rejects_empty_blocks M historical_hash other_hash ≡ err chain_too_short)
        × (test_rejects_chain_too_short M historical_hash roots ≡ err chain_too_short)
        × ((test_rejects_reorged_block M historical_hash roots orphan_roots
              ≡ err last_hash_mismatch)
            ↔ ((X.hash_slow (create_mock_header M historical_hash 2 orphan_roots)
                  ≢ (mock_chain M historical_hash 1 2 roots).1)
                × (X.hash_slow (create_mock_header M historical_hash 2 orphan_roots)
                    ≢ (mock_chain M historical_hash 1 3 roots).1)))
        × ((test_rejects_broken_chain_link M historical_hash other_hash roots
              ≡ err blocks_not_hashlinked)
            ↔ (other_hash ≢ X.hash_slow (create_mock_header M historical_hash 1 (roots 1))))
        × ((test_rejects_mismatched_historical_hash M historical_hash other_hash roots
              ≡ err blocks_not_hashlinked)
            ↔ (other_hash ≢ historical_hash))
  chain_length_tests_iff historical_hash other_hash roots orphan_roots = (
    (short_refused historical_hash other_hash roots).0,
    (short_refused historical_hash other_hash roots).1,
    reorged_iff historical_hash roots orphan_roots,
    broken_iff historical_hash other_hash roots,
    mismatched_iff historical_hash other_hash roots,
  )
