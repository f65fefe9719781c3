-- ===== src/Poc.antt =====
-- crates/poc/src/main.rs: the proofs of concept, which pass what the host prepares for one chain to
-- the guest's validation.
pub mod Prepared
pub mod Accepted
pub mod Sources
pub mod Passes
pub mod Tables
pub mod Game
pub mod Finalized
pub mod Posted
use malda_lending_fuzz.Prelude.{
  ℕ, Bool, true, false, List, [], ◌∷◌, Result, Report, Outcome, ok, ◌>>=◌, ◌>>◌, expect, expect_ok,
  env_input_none, input_not_decoded,
}
use malda_lending_fuzz.Bytes.{Bytes, Address}
use malda_lending_fuzz.Constants.{base_chain_id, ethereum_chain_id, linea_chain_id}
use malda_lending_fuzz.Externals.{Externals, eth, linea_mainnet_chain_spec}
use malda_lending_fuzz.Validators.ProofCall.{Request, validate_get_proof_data_call}
use malda_lending_fuzz.Host.Network.{Network}
use malda_lending_fuzz.Host.ZkvmInput.{get_proof_data_zkvm_input}

abbrev musdc : Address
musdc = 0x269C36A173D881720544Fb303E681370158FF1FD

abbrev mweth : Address
mweth = 0xC7Bc6bD45Eb84D594f51cED3c5497E6812C7732f

abbrev pub markets : List Address
markets = musdc ∷ mweth ∷ []

-- `from_slice` is that of risc0's serde, at the tuple that the guest reads.
module _ {X : Externals} (N : Network X) (from_slice : Bytes → Result Report (Request X)) where
  unfoldable pub decode_input : Bytes → Outcome (Request X)
  decode_input input = expect_ok (from_slice input) input_not_decoded

  -- Without its prints this builds the environment only.
  unfoldable pub validate_decoded_input_linea : Request X → Outcome (Unit {0})
  validate_decoded_input_linea decoded_input = do
    env_input ← expect decoded_input.env_input env_input_none
    _ ← X.into_env eth env_input linea_mainnet_chain_spec
    ok tt

  -- The body that the five tests share: from the host's input to the output that the guest would
  -- commit to, which the tests drop.
  unfoldable pub run_e2e :
      (users markets : List Address)
      → (target_chain_ids : List ℕ) → (chain_id : ℕ) → (l1_inclusion fallback : Bool)
      → Outcome (List Bytes)
  run_e2e users markets target_chain_ids chain_id l1_inclusion fallback = do
    input ←
        get_proof_data_zkvm_input N users markets target_chain_ids chain_id l1_inclusion fallback
    decoded_input ← decode_input input
    validate_get_proof_data_call X decoded_input []

  -- The five tests, for the two users that they draw.
  module _ (user_1 user_2 : Address) where
    unfoldable pub test_linea_e2e_non_l1_inclusion : Outcome (List Bytes)
    test_linea_e2e_non_l1_inclusion =
        run_e2e (user_1 ∷ user_2 ∷ []) markets (ethereum_chain_id ∷ linea_chain_id ∷ [])
          linea_chain_id false false

    unfoldable pub test_linea_e2e_l1_inclusion : Outcome (List Bytes)
    test_linea_e2e_l1_inclusion =
        run_e2e (user_1 ∷ user_2 ∷ []) markets (ethereum_chain_id ∷ ethereum_chain_id ∷ [])
          linea_chain_id true false

    unfoldable pub test_ethereum_e2e_non_l1_inclusion : Outcome (List Bytes)
    test_ethereum_e2e_non_l1_inclusion =
        run_e2e (user_1 ∷ user_2 ∷ []) markets (linea_chain_id ∷ linea_chain_id ∷ [])
          ethereum_chain_id false false

    unfoldable pub test_base_e2e_non_l1_inclusion : Outcome (List Bytes)
    test_base_e2e_non_l1_inclusion =
        run_e2e (user_1 ∷ user_2 ∷ []) markets (linea_chain_id ∷ linea_chain_id ∷ []) base_chain_id
          false false

    unfoldable pub test_base_e2e_l1_inclusion : Outcome (List Bytes)
    test_base_e2e_l1_inclusion =
        run_e2e (user_1 ∷ user_2 ∷ []) markets (linea_chain_id ∷ linea_chain_id ∷ []) base_chain_id
          true false
