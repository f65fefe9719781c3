-- ===== src/Tests/Units.antt =====
-- Examples of what the unit tests depend on.
use malda_lending_fuzz.Prelude.{
  ◌+◌, ◌≡◌, ◌≢◌, ◌↔◌, refl, arith, true, false, some, [], ◌∷◌, ok_unique, ◌==◌, if◌then◌else◌, ok,
  err, chain_too_short, blocks_not_hashlinked, last_hash_mismatch, l1_inclusion_unsupported,
  assertion_failed,
}
use malda_lending_fuzz.Bytes.{B256}
use malda_lending_fuzz.Constants.{ethereum_chain_id, linea_sequencer}
use malda_lending_fuzz.Externals.Sample.{sample}
use malda_lending_fuzz.Cryptography.{recover_signer, signature_from_bytes}
use malda_lending_fuzz.Host.Chains.{
  get_chain_params, is_ethereum_chain, get_default_sequencer_chain,
}
use malda_lending_fuzz.Host.Network.{get_rpc_url, suffixes, get_env_var}
use malda_lending_fuzz.Host.ZkvmInput.{is_sepolia_chain, get_proof_data_zkvm_input}
use malda_lending_fuzz.Fuzz.{signed_bytes}
use malda_lending_fuzz.UnitTests.{Roots, Mocks}
use malda_lending_fuzz.UnitTests.ChainLength.{
  create_mock_header, mock_chain, test_rejects_reorged_block, test_rejects_empty_blocks,
  test_rejects_broken_chain_link, test_rejects_mismatched_historical_hash,
  test_rejects_chain_too_short,
}
use malda_lending_fuzz.UnitTests.ChainLength.Refused.{chain_length_tests_iff}
use malda_lending_fuzz.UnitTests.Signatures.Recovered.{KeysAreLawful, recover_signer-signed_bytes}
use malda_lending_fuzz.UnitTests.Requests.{test_sort_params_linea_l1_inclusion_bug}
use malda_lending_fuzz.UnitTests.Requests.Ended.{
  ethereum_l1_inclusion_refused, sort_params_linea_l1_inclusion_lem,
}
use malda_lending_fuzz.Tests.Inputs.{network, commitment}
use malda_lending_fuzz.Tests.Market.{user, market, target, announced, recorded}
use malda_lending_fuzz.Tests.Signing.{signing, signing-IsLawful, tools, tools-AreLawful}

abbrev mocks : Mocks sample
mocks = record { header_of = λ parent _ _. parent + 1; parent_hash-of = λ parent _ _. omega arith }

abbrev drawn : Roots
drawn = record { state_root = 1; transactions_root = 2 }

chain_length_tests_iff_example :
    (test_rejects_empty_blocks mocks 7 9 ≡ err chain_too_short)
    × (test_rejects_chain_too_short mocks 7 (λ _. drawn) ≡ err chain_too_short)
    × ((test_rejects_reorged_block mocks 7 (λ _. drawn) drawn ≡ err last_hash_mismatch) ↔ (
        (sample.hash_slow (create_mock_header mocks 7 2 drawn)
          ≢ (mock_chain mocks 7 1 2 (λ _. drawn)).1)
        × (sample.hash_slow (create_mock_header mocks 7 2 drawn)
            ≢ (mock_chain mocks 7 1 3 (λ _. drawn)).1)))
    × ((test_rejects_broken_chain_link mocks 7 9 (λ _. drawn) ≡ err blocks_not_hashlinked)
        ↔ (9 ≢ sample.hash_slow (create_mock_header mocks 7 1 drawn)))
    × ((test_rejects_mismatched_historical_hash mocks 7 9 (λ _. drawn) ≡ err blocks_not_hashlinked)
        ↔ (◌≢◌ {A = B256} 9 7))
chain_length_tests_iff_example = chain_length_tests_iff mocks 7 9 (λ _. drawn) drawn

signs : tools.sign_prehash_recoverable (42 ∷ []) [] ≡ ok (tt, 1)
signs = refl

keys-AreLawful : KeysAreLawful tools (λ _. linea_sequencer)
keys-AreLawful = record {
  parsed = λ g. refl;
  identified =
      λ key prehash g id h. let is : 1 ≡ id = ground (arith, ok_unique signs h) in rw (← is) refl;
  normal = λ key prehash g id h. (refl, omega arith);
  recovered = λ key prehash g id h. refl;
}

recover_signer-signed_bytes_example :
    (signature : signing.Signature) × (signature_from_bytes signing (signed_bytes tools tt 1)
      ≡ ok signature)
    × (recover_signer signing signature 3 ≡ ok (some linea_sequencer))
recover_signer-signed_bytes_example =
    recover_signer-signed_bytes tools (λ _. linea_sequencer) signing-IsLawful tools-AreLawful
      keys-AreLawful (42 ∷ []) 3 tt 1 refl (omega arith)

ethereum_l1_inclusion_refused_example :
    get_proof_data_zkvm_input network user market target ethereum_chain_id true false
    ≡ err l1_inclusion_unsupported
unfolding is_ethereum_chain get_chain_params get_rpc_url suffixes get_env_var is_sepolia_chain
    get_default_sequencer_chain
ethereum_l1_inclusion_refused_example =
    ethereum_l1_inclusion_refused network user market target ethereum_chain_id false "ETHEREUM"
      false "RPC_URL_ETHEREUM" "RPC_URL_ETHEREUM" commitment 100 100 100 refl refl refl refl
      announced recorded (omega arith)

sort_params_linea_l1_inclusion_lem_example :
    test_sort_params_linea_l1_inclusion_bug network (λ _ e. ok e) ≡ (
      if sample.env_seal 100 == sample.hash_slow (network.header 100)
      then ok tt
      else err assertion_failed)
sort_params_linea_l1_inclusion_lem_example =
    sort_params_linea_l1_inclusion_lem network (λ _ e. ok e) "https://rpc.linea.build"
      "https://ethereum-rpc.publicnode.com" 100 100 100 100 100 100 100 refl refl refl refl refl
      refl refl refl refl
