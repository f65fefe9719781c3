-- ===== src/Host/Session/Joined.antt =====
-- The sessions' inputs where tasks fail.
use malda_lending_fuzz.Prelude.{
  ℕ, ◌≡◌, refl, ap, ◌∙◌, Bool, length, List, [], ◌∷◌, ◌++◌, Outcome, Panic, ok, err, bind_ok,
  task_not_joined,
}
use malda_lending_fuzz.Bytes.{Bytes, Address}
use malda_lending_fuzz.Externals.{Externals}
use malda_lending_fuzz.Host.Network.{Network}
use malda_lending_fuzz.Host.LinkingBlocks.{join}
use malda_lending_fuzz.Host.Session.{
  joined_inputs, expected_inputs, run_tasks, exec_input, get_proof_data_input, get_proof_data_exec,
  get_proof_data_env, get_proof_data_prove,
}

joined_inputs-append :
    (front back : List (Outcome Bytes)) (e : Panic)
    → joined_inputs (front ++ err e ∷ back) ≡ joined_inputs (front ++ back)
unfolding joined_inputs
joined_inputs-append [] back e = refl
joined_inputs-append (ok input ∷ front) back e =
    ap (λ t. input ++ t) (joined_inputs-append front back e)
joined_inputs-append (err _ ∷ front) back e = joined_inputs-append front back e

expected_inputs-joined :
    (results : List (Outcome Bytes)) (inputs : Bytes)
    → expected_inputs results ≡ ok inputs
    → joined_inputs results ≡ inputs
unfolding expected_inputs joined_inputs join
expected_inputs-joined [] inputs h = cc
expected_inputs-joined (ok input ∷ results) inputs h =
    bind_ok (expected_inputs results) _ h
      λ rest e h₁. ap (λ t. input ++ t) (expected_inputs-joined results rest e) ∙ cc
expected_inputs-joined (err _ ∷ results) inputs h = absurd (cc)

expected_inputs-failed :
    (front back : List (Outcome Bytes)) (e : Panic)
    → expected_inputs (front ++ err e ∷ back) ≡ err task_not_joined
unfolding expected_inputs join
expected_inputs-failed [] back e = refl
expected_inputs-failed (ok input ∷ front) back e = rw (expected_inputs-failed front back e) refl
expected_inputs-failed (err _ ∷ front) back e = refl

module _ {X : Externals} (N : Network X) (l1_inclusion fallback : Bool) where
  -- Where the execution gets its input, the prover and Bonsai get the same.
  pub exec_input-get_proof_data_input :
      (users markets : List (List Address)) (target_chain_ids : List (List ℕ)) (chain_ids : List ℕ)
      (input : Bytes)
      → exec_input N l1_inclusion fallback users markets target_chain_ids chain_ids ≡ ok input
      → (get_proof_data_input N l1_inclusion fallback users markets target_chain_ids chain_ids
          ≡ ok input)
        × (get_proof_data_env N l1_inclusion fallback users markets target_chain_ids chain_ids
            ≡ ok input)
  unfolding exec_input get_proof_data_input get_proof_data_env
  exec_input-get_proof_data_input users markets target_chain_ids chain_ids input h =
      bind_ok (run_tasks N l1_inclusion fallback users markets target_chain_ids chain_ids) _ h
        λ results ran h₁. bind_ok (expected_inputs results) _ h₁ λ all expected h₂. (
          rw (ran, expected_inputs-joined results all expected) h₂,
          rw (ran, expected_inputs-joined results all expected) h₂,
        )

  get_proof_data_env_failed :
      (users markets : List (List Address)) (target_chain_ids : List (List ℕ)) (chain_ids : List ℕ)
      (front back : List (Outcome Bytes)) (e : Panic) (count : Bytes)
      → run_tasks N l1_inclusion fallback users markets target_chain_ids chain_ids
        ≡ ok (front ++ err e ∷ back)
      → N.count_to_vec (length chain_ids) ≡ ok count
      → get_proof_data_env N l1_inclusion fallback users markets target_chain_ids chain_ids
        ≡ ok (count ++ joined_inputs (front ++ back))
  unfolding get_proof_data_env
  get_proof_data_env_failed users markets target_chain_ids chain_ids front back e count ran
        counted =
      rw (ran, counted, joined_inputs-append front back e) refl

  -- Where one task fails, the execution panics, while the prover runs on the count of all chains
  -- before the inputs of the other tasks only.
  pub get_proof_data_prove_failed :
      (users markets : List (List Address)) (target_chain_ids : List (List ℕ)) (chain_ids : List ℕ)
      (front back : List (Outcome Bytes)) (e : Panic) (count : Bytes)
      → run_tasks N l1_inclusion fallback users markets target_chain_ids chain_ids
        ≡ ok (front ++ err e ∷ back)
      → N.count_to_vec (length chain_ids) ≡ ok count
      → (get_proof_data_exec N l1_inclusion fallback users markets target_chain_ids chain_ids
          ≡ err task_not_joined)
        × (get_proof_data_prove N l1_inclusion fallback users markets target_chain_ids chain_ids
            ≡ N.prove_with_opts (count ++ joined_inputs (front ++ back)))
  unfolding exec_input get_proof_data_exec get_proof_data_prove
  get_proof_data_prove_failed users markets target_chain_ids chain_ids front back e count ran
        counted =
      (
        rw (ran, expected_inputs-failed front back e) refl,
        rw
            (
              get_proof_data_prove,
              get_proof_data_env_failed users markets target_chain_ids chain_ids front back e count
                  ran counted,
            )
            refl,
      )
