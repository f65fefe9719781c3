-- ===== src/Contracts/Calls/Verified.antt =====
-- The proof behind a payment.
use malda_lending_fuzz.Prelude.{
  ◌≡◌, refl, arith, true, false, ◌||◌, ltb, if◌then◌else◌, length, List, [], ◌∷◌, ok, bind_ok,
}
use malda_lending_fuzz.Bytes.{Bytes, Address, U256}
use malda_lending_fuzz.Journal.{Entry}
use malda_lending_fuzz.Contracts.{
  Deployment, Context, decoded, proof_forwarder, proof_batch_forwarder, require_ok, reverted_ok,
}
use malda_lending_fuzz.Contracts.Gateway.{Gateway, amount_out_here, not_paused, if_not_blacklisted}
use malda_lending_fuzz.Contracts.OutHere.{all_included, verify_proof, out_here}
use malda_lending_fuzz.Contracts.Calls.{All}

abbrev pub Included : Bytes → Type 0
Included journal = (e : Entry) × (decoded journal ≡ ok e) × (e.l1_inclusion ≡ true)

module _ (D : Deployment) where
  all_included_sound :
      (journals : List Bytes) → all_included D journals ≡ ok tt → All Included journals
  unfolding all_included
  all_included_sound [] h = tt
  all_included_sound (journal ∷ journals) h = bind_ok (decoded journal) _ h λ e read h₁.
      require_ok e.l1_inclusion _ _ h₁
        λ included rest. ((e, read, included), all_included_sound journals rest)

  verify_proof_sound :
      (c : Context) (g : Gateway D) (journal_data seal : Bytes)
      → verify_proof D c g journal_data seal ≡ ok tt
      → (c.verify_input g.verifier journal_data seal ≡ true)
        × (journals : List Bytes) × (c.abi_decode journal_data ≡ ok journals)
        × ((c.is_allowed_for c.sender proof_forwarder
                || c.is_allowed_for c.sender proof_batch_forwarder)
              ≡ false
            → All Included journals)
  unfolding verify_proof
  verify_proof_sound c g journal_data seal h =
      let forwards =
        c.is_allowed_for c.sender proof_forwarder
        || c.is_allowed_for c.sender proof_batch_forwarder in
      require_ok (ltb 0 (length journal_data)) _ _ h λ _ h₁.
        reverted_ok (c.abi_decode journal_data) _ h₁ λ journals read h₂.
          bind_ok (if forwards then ok tt else all_included D journals) _ h₂ λ _ flags h₃.
            (ground arith, journals, read, λ none. all_included_sound journals (rw none at flags))

  -- GW07 of the README: where `outHere` succeeds for a caller who is no batch forwarder, the verifier
  -- has accepted the journal data with the seal, and the data decode to journals of which each one has
  -- the inclusion flag, if the caller is no proof forwarder either.
  pub out_here_verified :
      (c : Context) (g g' : Gateway D) (journal_data seal : Bytes) (amounts : List U256)
      (receiver : Address)
      → c.is_allowed_for c.sender proof_batch_forwarder ≡ false
      → out_here D c g journal_data seal amounts receiver ≡ ok g'
      → (c.verify_input g.verifier journal_data seal ≡ true)
        × (journals : List Bytes) × (c.abi_decode journal_data ≡ ok journals)
        × (c.is_allowed_for c.sender proof_forwarder ≡ false → All Included journals)
  unfolding out_here
  out_here_verified c g g' journal_data seal amounts receiver no_role h =
      bind_ok (not_paused D g amount_out_here) _ h λ _ _ h₁.
        bind_ok (if_not_blacklisted D c c.sender) _ h₁ λ _ _ h₂.
          bind_ok (if_not_blacklisted D c receiver) _ h₂ λ _ _ h₃.
            bind_ok
              (if c.is_allowed_for c.sender proof_batch_forwarder
                then ok tt
                else verify_proof D c g journal_data seal)
              _ h₃
              λ _ checked _.
                let (accepted, journals, read, flags) =
                  verify_proof_sound c g journal_data seal (rw no_role at checked) in
                (accepted, journals, read, λ forwards. flags (rw (forwards, no_role) refl))
