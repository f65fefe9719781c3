-- ===== src/UnitTests/Requests.antt =====
-- The unit tests of crates/malda_rs/src/viewcalls.rs, and those of
-- crates/malda_utils/src/validators.rs that ask the network.
pub mod Ended
use malda_lending_fuzz.Prelude.{
  ℕ, ◌==◌, if◌then◌else◌, Bool, true, false, not, ◌&&◌, String, some, none, List, [], ◌∷◌, Result,
  Report, Outcome, ok, err, ◌>>=◌, ◌>>◌, ltb, assert, expect_ok, unwrap_err, assertion_failed,
}
use malda_lending_fuzz.Bytes.{Address}
use malda_lending_fuzz.Constants.{
  ethereum_chain_id, optimism_chain_id, base_chain_id, linea_chain_id, optimism_sequencer,
}
use malda_lending_fuzz.Externals.{Externals, eth, eth_mainnet_chain_spec, linea_mainnet_chain_spec}
use malda_lending_fuzz.Types.Commitment.{verify}
use malda_lending_fuzz.Validators.Linea.{validate_linea_env}
use malda_lending_fuzz.Validators.Params.{sort_and_verify_relevant_params}
use malda_lending_fuzz.Host.Network.{Network, latest, eth_env}
use malda_lending_fuzz.Host.Sequencer.{get_current_sequencer_commitment}
use malda_lending_fuzz.Host.ZkvmInput.{get_proof_data_zkvm_input}

abbrev is_ok : {E A : Type 0} → Result E A → Bool
is_ok (ok a) = true
is_ok (err e) = false

abbrev pub valid_chain_ids : List ℕ
valid_chain_ids = ethereum_chain_id ∷ optimism_chain_id ∷ base_chain_id ∷ linea_chain_id ∷ []

abbrev pub both : List Bool
both = true ∷ false ∷ []

-- A `for` loop whose body may panic.
unfoldable pub for_each : {A : Type 0} → List A → (A → Outcome (Unit {0})) → Outcome (Unit {0})
for_each [] body = ok tt
for_each (x ∷ xs) body = do body x; for_each xs body

module _ {X : Externals} (N : Network X) where
  -- `random` stands for `Address::random()`.
  unfoldable pub test_sequencer_commitment_verification : (random : Address) → Outcome (Unit {0})
  test_sequencer_commitment_verification random = do
    (commitment, block_number) ← get_current_sequencer_commitment N optimism_chain_id false
    assert (not (is_ok (verify X commitment random optimism_chain_id))) assertion_failed
    assert (not (is_ok (verify X commitment optimism_sequencer base_chain_id))) assertion_failed
    assert (is_ok (verify X commitment optimism_sequencer optimism_chain_id)) assertion_failed
    assert (ltb 0 block_number) assertion_failed

  test_chainspec : Outcome (Unit {0})
  test_chainspec = do
    _ ← eth_env N "https://optimism-rpc.publicnode.com" latest eth_mainnet_chain_spec
    ok tt

  unfoldable pub test_zk09_ethereum_l1_inclusion : (user market : Address) → Outcome (Unit {0})
  test_zk09_ethereum_l1_inclusion user market = do
    get_proof_data_zkvm_input N (user ∷ []) (market ∷ []) (linea_chain_id ∷ []) ethereum_chain_id
        true false
    ok tt

  -- One round of the loops: Ethereum with L1 inclusion is skipped.
  unfoldable pub zkvm_input_round : (user market : Address) → ℕ → Bool → Bool → Outcome (Unit {0})
  zkvm_input_round user market chain_id l1_inclusion fallback =
      if chain_id == ethereum_chain_id && l1_inclusion then ok tt else do
        get_proof_data_zkvm_input N (user ∷ []) (market ∷ []) valid_chain_ids chain_id l1_inclusion
            fallback
        ok tt

  unfoldable pub test_get_proof_data_zkvm_input : (user market : Address) → Outcome (Unit {0})
  test_get_proof_data_zkvm_input user market = for_each valid_chain_ids λ chain_id.
      for_each both λ l1_inclusion.
        for_each both λ fallback. zkvm_input_round user market chain_id l1_inclusion fallback

  unfoldable pub get_latest_linea_header : Outcome X.Header
  get_latest_linea_header = do
    env ← eth_env N "https://rpc.linea.build" latest linea_mainnet_chain_spec
    ok (N.header env)

  unfoldable pub test_zk12_valid_linea_signature_passes : Outcome (Unit {0})
  test_zk12_valid_linea_signature_passes = do
    valid_header ← get_latest_linea_header
    validate_linea_env X linea_chain_id valid_header

  -- `account_info` stands for Steel's `Account::preflight(..).info()`.
  unfoldable pub test_sort_params_linea_l1_inclusion_bug :
      (account_info : Address → N.HostEnv eth → Result Report (N.HostEnv eth)) → Outcome (Unit {0})
  test_sort_params_linea_l1_inclusion_bug account_info = do
    linea_rpc ← expect_ok (N.parse "https://rpc.linea.build") unwrap_err
    eth_rpc ← expect_ok (N.parse "https://ethereum-rpc.publicnode.com") unwrap_err
    linea_env ← expect_ok (N.build linea_rpc latest linea_mainnet_chain_spec) unwrap_err
    ethereum_env ← expect_ok (N.build eth_rpc latest eth_mainnet_chain_spec) unwrap_err
    let expected_header_hash = X.hash_slow (N.header ethereum_env)
    linea_called ← expect_ok (account_info 0 linea_env) unwrap_err
    ethereum_called ← expect_ok (account_info 0 ethereum_env) unwrap_err
    linea_input ← expect_ok (N.into_input eth linea_called) unwrap_err
    ethereum_input ← expect_ok (N.into_input eth ethereum_called) unwrap_err
    sorted ←
        sort_and_verify_relevant_params X linea_chain_id (some linea_input) [] (some ethereum_input)
          none
    assert sorted.validate_l1_inclusion assertion_failed
    assert (X.env_seal sorted.env_for_viewcall == expected_header_hash) assertion_failed
