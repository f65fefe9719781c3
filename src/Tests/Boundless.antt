-- ===== src/Tests/Boundless.antt =====
-- An example of a proof by the market.
use malda_lending_fuzz.Prelude.{◌≡◌, ◌↔◌, ℕ, true, false, String, [], ◌∷◌, ok, Outcome}
use malda_lending_fuzz.Bytes.{Bytes}
use malda_lending_fuzz.Constants.{linea_chain_id, base_chain_id}
use malda_lending_fuzz.Host.Session.{get_proof_data_input}
use malda_lending_fuzz.Host.Boundless.{Boundless, get_proof_data_prove_boundless}
use malda_lending_fuzz.Host.Boundless.Fulfilled.{Fulfilled, boundless_iff}
use malda_lending_fuzz.Tests.Inputs.{network}

-- A market whose requests are their input; the journal is the request's identifier.
abbrev market : Boundless String
market = record {
  DotenvError = ℕ;
  dotenv = ok ".env";
  not_found = λ _. true;
  PrivateKeySigner = String;
  signer_from_str = λ key. ok key;
  StorageProvider = ℕ;
  storage_provider_from_env = ok 0;
  Client = String;
  build = λ _ url _. ok url;
  RequestParams = Bytes;
  new_request = λ _. [];
  with_program_url = λ request _. ok request;
  with_program = λ request _. request;
  with_stdin = λ _ input. input;
  with_groth16_proof = λ request. request;
  submit_onchain = λ _ _. ok (1, 100);
  submit_offchain = λ _ _. ok (2, 100);
  wait_for_request_fulfillment = λ _ id _ expires_at. ok (id ∷ [], expires_at ∷ []);
  get_proof_data_elf = [];
}

abbrev input : Outcome Bytes
input =
    get_proof_data_input network false false ((5 ∷ []) ∷ []) ((6 ∷ []) ∷ [])
      ((base_chain_id ∷ []) ∷ []) (linea_chain_id ∷ [])

boundless_iff_example :
    (get_proof_data_prove_boundless network market
        ((5 ∷ []) ∷ [])
        ((6 ∷ []) ∷ [])
        ((base_chain_id ∷ []) ∷ [])
        (linea_chain_id ∷ [])
        false
        false
        true
      ≡ ok (1 ∷ [], 100 ∷ []))
    ↔ Fulfilled network market input true (1 ∷ [], 100 ∷ [])
boundless_iff_example =
    boundless_iff network market ((5 ∷ []) ∷ []) ((6 ∷ []) ∷ []) ((base_chain_id ∷ []) ∷ [])
      (linea_chain_id ∷ []) false false true (1 ∷ [], 100 ∷ [])
