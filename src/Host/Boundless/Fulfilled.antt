-- ===== src/Host/Boundless/Fulfilled.antt =====
-- What stands behind a proof of the market.
use malda_lending_fuzz.Prelude.{ℕ, ◌≡◌, ◌↔◌, refl, Bool, List, Outcome, ok, bind_ok}
use malda_lending_fuzz.Bytes.{Bytes, Address}
use malda_lending_fuzz.Externals.{Externals}
use malda_lending_fuzz.Host.Network.{Network}
use malda_lending_fuzz.Host.Session.{get_proof_data_input}
use malda_lending_fuzz.Host.Bonsai.{try_ok}
use malda_lending_fuzz.Host.Boundless.{
  Boundless, propagate, after_dotenv, build_client, build_request, submit,
  get_proof_data_prove_boundless,
}
use malda_lending_fuzz.Host.Boundless.Steps.{
  DotenvLoaded, Connected, Requested, Submitted, after_dotenv_sound, after_dotenv_complete,
  build_client_sound, build_client_complete, build_request_sound, build_request_complete,
  submit_sound, submit_complete, try_ok_sound, propagate_sound,
}

module _ {X : Externals} (N : Network X) (M : Boundless N.Url) where
  -- What stands behind a journal and a seal.
  pub record Fulfilled (input : Outcome Bytes) (onchain : Bool) (proof : Bytes × Bytes)
      : Type 0 where
    pub client : M.Client
    pub input_bytes : Bytes
    pub request : M.RequestParams
    pub request_id : ℕ
    pub expires_at : ℕ
    pub dotenv_loaded : DotenvLoaded N M
    pub connected : Connected N M client
    pub prepared : input ≡ ok input_bytes
    pub requested : Requested N M client input_bytes request
    pub submitted : Submitted N M client request (request_id, expires_at) onchain
    pub fulfilled : M.wait_for_request_fulfillment client request_id 5 expires_at ≡ ok proof

  module _ (users markets : List (List Address)) (target_chain_id : List (List ℕ))
      (chain_ids : List ℕ) (l1_inclusion fallback onchain : Bool) (proof : Bytes × Bytes) where
    abbrev input_of : Outcome Bytes
    input_of = get_proof_data_input N l1_inclusion fallback users markets target_chain_id chain_ids

    boundless_sound :
        get_proof_data_prove_boundless N M users markets target_chain_id chain_ids l1_inclusion
            fallback onchain
          ≡ ok proof
        → Fulfilled input_of onchain proof
    unfolding get_proof_data_prove_boundless
    boundless_sound h = bind_ok (after_dotenv N M M.dotenv) _ h λ _ e₁ h₁.
        bind_ok (build_client N M) _ h₁ λ client e₂ h₂.
          bind_ok (propagate input_of) _ h₂ λ input_bytes e₃ h₃.
            bind_ok (build_request N M (N.var "PROGRAM_URL") client input_bytes) _ h₃
              λ request e₄ h₄.
                bind_ok (submit N M client request onchain) _ h₄ λ (request_id, expires_at) e₅ h₅.
                  record {
                    client = client;
                    input_bytes = input_bytes;
                    request = request;
                    request_id = request_id;
                    expires_at = expires_at;
                    dotenv_loaded = after_dotenv_sound N M M.dotenv refl e₁;
                    connected = build_client_sound N M client e₂;
                    prepared = propagate_sound input_of e₃;
                    requested =
                        build_request_sound N M (N.var "PROGRAM_URL") client input_bytes request
                          refl e₄;
                    submitted = submit_sound N M client request onchain (request_id, expires_at) e₅;
                    fulfilled = try_ok_sound _ h₅;
                  }

    boundless_complete :
        Fulfilled input_of onchain proof
        → get_proof_data_prove_boundless N M users markets target_chain_id chain_ids l1_inclusion
            fallback onchain
          ≡ ok proof
    unfolding get_proof_data_prove_boundless propagate try_ok
    boundless_complete f =
        rw
          (
            after_dotenv_complete N M f.dotenv_loaded,
            build_client_complete N M f.client f.connected,
            f.prepared,
            build_request_complete N M f.client f.input_bytes f.request f.requested,
            submit_complete N M f.client f.request onchain (f.request_id, f.expires_at) f.submitted,
            f.fulfilled,
          )
          refl

    -- The market's journal and seal are returned exactly where the `.env` file was loaded or is
    -- missing, a client was built from the endpoint and the key that are set, the input was prepared
    -- without a panic, and the request, which asks for a Groth16 proof of the program at PROGRAM_URL
    -- (of the guest's own image where that is not set) on this input, was submitted where `onchain`
    -- says and fulfilled, polled every five seconds, before it expired.
    pub boundless_iff :
        (get_proof_data_prove_boundless N M users markets target_chain_id chain_ids l1_inclusion
            fallback onchain
          ≡ ok proof)
        ↔ Fulfilled input_of onchain proof
    boundless_iff = (boundless_sound, boundless_complete)
