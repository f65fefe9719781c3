-- ===== src/Host/Boundless/Steps.antt =====
-- What stands behind each step of a proof by the market.
use malda_lending_fuzz.Prelude.{
  ℕ, ◌≡◌, refl, ap, ◌∙◌, Bool, true, false, String, Option, none, some, Result, Report, Outcome, ok,
  err, bind_ok, ok_unique, if_ok,
}
use malda_lending_fuzz.Bytes.{Bytes}
use malda_lending_fuzz.Externals.{Externals}
use malda_lending_fuzz.Host.Network.{Network}
use malda_lending_fuzz.Host.Bonsai.{try_ok}
use malda_lending_fuzz.Host.Boundless.{
  Boundless, try_some, propagate, after_dotenv, build_client, build_request, submit,
}

pub try_ok_sound {ℓ} : {A : Type ℓ} (r : Result Report A) {a : A} → try_ok r ≡ ok a → r ≡ ok a
unfolding try_ok
try_ok_sound (ok a) h = cc
try_ok_sound (err e) h = absurd (cc)

try_some_sound {ℓ} : {A : Type ℓ} (o : Option A) {a : A} → try_some o ≡ ok a → o ≡ some a
unfolding try_some
try_some_sound none h = absurd (cc)
try_some_sound (some a) h = cc

pub propagate_sound {ℓ} : {A : Type ℓ} (m : Outcome A) {a : A} → propagate m ≡ ok a → m ≡ ok a
unfolding propagate
propagate_sound (ok a) h = cc
propagate_sound (err p) h = absurd (cc)

module _ {X : Externals} (N : Network X) (M : Boundless N.Url) where
  -- The `.env` file was loaded, or there is none.
  pub data DotenvLoaded : Type 0 where
    loaded : (path : String) → M.dotenv ≡ ok path → DotenvLoaded
    no_file : (e : M.DotenvError) → M.dotenv ≡ err e → M.not_found e ≡ true → DotenvLoaded

  -- The client of the endpoint and the key that the environment names.
  pub record Connected (client : M.Client) : Type 0 where
    pub rpc_url : String
    pub private_key : String
    pub url : N.Url
    pub signer : M.PrivateKeySigner
    pub storage : M.StorageProvider
    pub rpc_url_set : N.var "RPC_URL" ≡ some rpc_url
    pub private_key_set : N.var "PRIVATE_KEY" ≡ some private_key
    pub url_parsed : N.parse rpc_url ≡ ok url
    pub signer_parsed : M.signer_from_str private_key ≡ ok signer
    pub storage_set : M.storage_provider_from_env ≡ ok storage
    pub built : M.build storage url signer ≡ ok client

  -- The program that a request names: the one at the URL, or the guest's own.
  pub data Programmed (client : M.Client) (program : M.RequestParams) : Type 0 where
    by_url :
        (program_url : String) (parsed_url : N.Url)
        → N.var "PROGRAM_URL" ≡ some program_url
        → N.parse program_url ≡ ok parsed_url
        → M.with_program_url (M.new_request client) parsed_url ≡ ok program
        → Programmed client program
    by_elf :
        N.var "PROGRAM_URL" ≡ none
        → M.with_program (M.new_request client) M.get_proof_data_elf ≡ program
        → Programmed client program

  -- The place where a request was submitted.
  pub data Submitted (client : M.Client) (request : M.RequestParams) (receipt : ℕ × ℕ)
      : Bool → Type 0 where
    to_chain : M.submit_onchain client request ≡ ok receipt → Submitted client request receipt true
    to_order_stream :
        M.submit_offchain client request ≡ ok receipt → Submitted client request receipt false

  pub after_dotenv_sound :
      (d : Result M.DotenvError String) → M.dotenv ≡ d → after_dotenv N M d ≡ ok tt → DotenvLoaded
  unfolding after_dotenv
  after_dotenv_sound (ok path) e h = loaded path e
  after_dotenv_sound (err error) e h =
      if_ok (M.not_found error) _ _ h (λ absent _. no_file error e absent) (λ _ h'. absurd (cc))

  pub after_dotenv_complete : DotenvLoaded → after_dotenv N M M.dotenv ≡ ok tt
  unfolding after_dotenv
  after_dotenv_complete (loaded path e) = rw e refl
  after_dotenv_complete (no_file error e absent) = rw (e, absent) refl

  pub build_client_sound : (client : M.Client) → build_client N M ≡ ok client → Connected client
  unfolding build_client
  build_client_sound client h = bind_ok (try_some (N.var "RPC_URL")) _ h λ rpc_url e₁ h₁.
      bind_ok (try_some (N.var "PRIVATE_KEY")) _ h₁ λ private_key e₂ h₂.
        bind_ok (try_ok (N.parse rpc_url)) _ h₂ λ url e₃ h₃.
          bind_ok (try_ok (M.signer_from_str private_key)) _ h₃ λ signer e₄ h₄.
            bind_ok (try_ok M.storage_provider_from_env) _ h₄ λ storage e₅ h₅. record {
              rpc_url = rpc_url;
              private_key = private_key;
              url = url;
              signer = signer;
              storage = storage;
              rpc_url_set = try_some_sound (N.var "RPC_URL") e₁;
              private_key_set = try_some_sound (N.var "PRIVATE_KEY") e₂;
              url_parsed = try_ok_sound (N.parse rpc_url) e₃;
              signer_parsed = try_ok_sound (M.signer_from_str private_key) e₄;
              storage_set = try_ok_sound M.storage_provider_from_env e₅;
              built = try_ok_sound (M.build storage url signer) h₅;
            }

  pub build_client_complete : (client : M.Client) → Connected client → build_client N M ≡ ok client
  unfolding build_client try_some try_ok
  build_client_complete client c =
      rw (c.rpc_url_set, c.private_key_set, c.url_parsed, c.signer_parsed, c.storage_set, c.built)
        refl

  -- A request is the Groth16 proof of a program on the input.
  pub record Requested (client : M.Client) (input : Bytes) (request : M.RequestParams)
      : Type 0 where
    pub program : M.RequestParams
    pub programmed : Programmed client program
    pub completed : M.with_groth16_proof (M.with_stdin program input) ≡ request

  pub build_request_sound :
      (program_url : Option String) (client : M.Client) (input : Bytes) (request : M.RequestParams)
      → N.var "PROGRAM_URL" ≡ program_url
      → build_request N M program_url client input ≡ ok request
      → Requested client input request
  unfolding build_request
  build_request_sound none client input request unset h = record {
    program = M.with_program (M.new_request client) M.get_proof_data_elf;
    programmed = by_elf unset refl;
    completed = ok_unique refl h;
  }
  build_request_sound (some program_url) client input request set h =
      bind_ok (try_ok (N.parse program_url)) _ h λ parsed_url e₁ h₁.
        bind_ok (try_ok (M.with_program_url (M.new_request client) parsed_url)) _ h₁
          λ program e₂ h₂. record {
            program = program;
            programmed =
                by_url program_url parsed_url set (try_ok_sound (N.parse program_url) e₁)
                  (try_ok_sound _ e₂);
            completed = ok_unique refl h₂;
          }

  Programmed-complete :
      (client : M.Client) (input : Bytes) (program : M.RequestParams)
      → Programmed client program
      → build_request N M (N.var "PROGRAM_URL") client input
        ≡ ok (M.with_groth16_proof (M.with_stdin program input))
  unfolding build_request try_ok
  Programmed-complete client input program (by_url program_url parsed_url set parsed programmed) =
      rw (set, parsed, programmed) refl
  Programmed-complete client input program (by_elf unset programmed) = rw (unset, ← programmed) refl

  pub build_request_complete :
      (client : M.Client) (input : Bytes) (request : M.RequestParams)
      → Requested client input request
      → build_request N M (N.var "PROGRAM_URL") client input ≡ ok request
  build_request_complete client input request r =
      Programmed-complete client input r.program r.programmed ∙ ap ok r.completed

  pub submit_sound :
      (client : M.Client) (request : M.RequestParams) (onchain : Bool) (receipt : ℕ × ℕ)
      → submit N M client request onchain ≡ ok receipt
      → Submitted client request receipt onchain
  unfolding submit
  submit_sound client request true receipt h = to_chain (try_ok_sound _ h)
  submit_sound client request false receipt h = to_order_stream (try_ok_sound _ h)

  pub submit_complete :
      (client : M.Client) (request : M.RequestParams) (onchain : Bool) (receipt : ℕ × ℕ)
      → Submitted client request receipt onchain
      → submit N M client request onchain ≡ ok receipt
  unfolding submit try_ok
  submit_complete client request true receipt (to_chain e) = rw e refl
  submit_complete client request false receipt (to_order_stream e) = rw e refl
