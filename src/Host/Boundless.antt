-- ===== src/Host/Boundless.antt =====
-- `get_proof_data_prove_boundless`: a proof by the Boundless market, to which the request is
-- submitted on chain or off chain.
pub mod Steps
pub mod Fulfilled
use malda_lending_fuzz.Prelude.{
  ℕ, Bool, if◌then◌else◌, String, Option, none, some, List, Result, Report, Outcome, library_error,
  ok, err, ◌>>=◌, ◌>>◌,
}
use malda_lending_fuzz.Bytes.{Bytes, Address}
use malda_lending_fuzz.Externals.{Externals}
use malda_lending_fuzz.Host.Network.{Network}
use malda_lending_fuzz.Host.Session.{get_proof_data_input}
use malda_lending_fuzz.Host.Bonsai.{Failure, panicked, failed, try_ok}

-- The market's client and alloy's signer, for the URLs of the `url` crate, and dotenvy's load of the
-- `.env` file, which comes before each reading of a variable.
pub record Boundless (Url : Type 0) : Type 1 where
  pub DotenvError : Type 0
  pub dotenv : Result DotenvError String
  pub not_found : DotenvError → Bool
  pub PrivateKeySigner : Type 0
  pub signer_from_str : String → Result Report PrivateKeySigner
  pub StorageProvider : Type 0
  pub storage_provider_from_env : Result Report StorageProvider
  pub Client : Type 0
  pub build : StorageProvider → Url → PrivateKeySigner → Result Report Client
  pub RequestParams : Type 0
  pub new_request : Client → RequestParams
  pub with_program_url : RequestParams → Url → Result Report RequestParams
  pub with_program : RequestParams → (elf : Bytes) → RequestParams
  pub with_stdin : RequestParams → Bytes → RequestParams
  pub with_groth16_proof : RequestParams → RequestParams
  pub submit_onchain : Client → RequestParams → Result Report (ℕ × ℕ)
  pub submit_offchain : Client → RequestParams → Result Report (ℕ × ℕ)
  pub wait_for_request_fulfillment :
      Client → (request_id interval expires_at : ℕ) → Result Report (Bytes × Bytes)
  -- GET_PROOF_DATA_ELF, which the build of the guest generates.
  pub get_proof_data_elf : Bytes

-- `?` behind `context`.
unfoldable pub try_some {ℓ} : {A : Type ℓ} → Option A → Result Failure A
try_some none = err (failed library_error)
try_some (some a) = ok a

-- A panic of a call that is not a task.
unfoldable pub propagate {ℓ} : {A : Type ℓ} → Outcome A → Result Failure A
propagate (ok a) = ok a
propagate (err p) = err (panicked p)

module _ {X : Externals} (N : Network X) (M : Boundless N.Url) where
  -- What follows the load of the `.env` file: a missing one is no error.
  unfoldable pub after_dotenv : Result M.DotenvError String → Result Failure (Unit {0})
  after_dotenv (ok path) = ok tt
  after_dotenv (err e) = if M.not_found e then ok tt else err (failed library_error)

  unfoldable pub build_client : Result Failure M.Client
  build_client = do
    rpc_url ← try_some (N.var "RPC_URL")
    private_key ← try_some (N.var "PRIVATE_KEY")
    url ← try_ok (N.parse rpc_url)
    signer ← try_ok (M.signer_from_str private_key)
    storage ← try_ok M.storage_provider_from_env
    try_ok (M.build storage url signer)

  -- The request, by the value of PROGRAM_URL.
  unfoldable pub build_request : Option String → M.Client → Bytes → Result Failure M.RequestParams
  build_request (some program_url) client input_bytes = do
    parsed_url ← try_ok (N.parse program_url)
    request ← try_ok (M.with_program_url (M.new_request client) parsed_url)
    ok (M.with_groth16_proof (M.with_stdin request input_bytes))
  build_request none client input_bytes = ok (
      M.with_groth16_proof
        (M.with_stdin (M.with_program (M.new_request client) M.get_proof_data_elf) input_bytes))

  unfoldable pub submit : M.Client → M.RequestParams → Bool → Result Failure (ℕ × ℕ)
  submit client request onchain =
      if onchain
      then try_ok (M.submit_onchain client request)
      else try_ok (M.submit_offchain client request)

  unfoldable pub get_proof_data_prove_boundless :
      List (List Address)
      → List (List Address)
      → List (List ℕ)
      → List ℕ
      → Bool
      → Bool
      → Bool
      → Result Failure (Bytes × Bytes)
  get_proof_data_prove_boundless users markets target_chain_id chain_ids l1_inclusion fallback
        onchain =
      do
        after_dotenv M.dotenv
        client ← build_client
        input_bytes ←
            propagate
              (get_proof_data_input N l1_inclusion fallback users markets target_chain_id chain_ids)
        request ← build_request (N.var "PROGRAM_URL") client input_bytes
        (request_id, expires_at) ← submit client request onchain
        try_ok (M.wait_for_request_fulfillment client request_id 5 expires_at)
