-- ===== src/Host/Bonsai/Ended.antt =====
-- When a run of Bonsai ends.
use malda_lending_fuzz.Prelude.{
  ℕ, ◌<◌, ◌≡◌, ◌≢◌, refl, ap, arith, true, false, String, Option, none, some, Result, Report, Panic,
  env_var_missing, ok, err, ◌>>=◌,
}
use malda_lending_fuzz.Bytes.{Bytes}
use malda_lending_fuzz.Host.Bonsai.{
  Bonsai, Failure, running, still_polling, done, poll, try_ok, expect_some, SessionStatus,
  SnarkStatus, stark_round, snark_round, run_bonsai,
}
use malda_lending_fuzz.Host.Bonsai.Polling.{is_done, loop_ends}

-- No step but a loop can leave the run polling, and a bind that does so does it behind its first
-- part, where that does not.
try_ends {ℓ} : {A : Type ℓ} (r : Result Report A) → try_ok r ≢ err still_polling
unfolding try_ok
try_ends (ok a) h = cc
try_ends (err e) h = cc

expect_ends {ℓ} : {A : Type ℓ} (o : Option A) (p : Panic) → expect_some o p ≢ err still_polling
unfolding expect_some
expect_ends none p h = cc
expect_ends (some a) p h = cc

after {ℓ κ} :
    {A : Type ℓ} {D : Type κ} (m : Result Failure A) (f : A → Result Failure D)
    → m ≢ err still_polling
    → (m >>= f) ≡ err still_polling
    → ((a : A) → f a ≡ err still_polling → ⊥)
    → ⊥
after (ok a) f ends h k = k a h
after (err e) f ends h k =
    let same : e ≡ still_polling = cc in ends (ap (λ (x : Failure). err x) same)

module _ (B : Bonsai) where
  stark_round_ends :
      (answer : Result Report SessionStatus) → stark_round B answer ≢ done (err still_polling)
  unfolding stark_round expect_some
  stark_round_ends answer h = ground arith

  snark_round_ends :
      (answer : Result Report SnarkStatus) → snark_round B answer ≢ done (err still_polling)
  unfolding snark_round
  snark_round_ends answer h = ground arith

  -- An answer that ends a phase: an error, or any status but that it runs.
  abbrev pub IsStarkSettled : Result Report SessionStatus → Type 0
  IsStarkSettled answer = (res : SessionStatus) → answer ≡ ok res → res.status ≢ running

  abbrev pub IsSnarkSettled : Result Report SnarkStatus → Type 0
  IsSnarkSettled answer = (res : SnarkStatus) → answer ≡ ok res → res.status ≢ running

  stark_round_done :
      (answer : Result Report SessionStatus)
      → IsStarkSettled answer
      → is_done (stark_round B answer) ≡ true
  unfolding stark_round
  stark_round_done (err e) settled = refl
  stark_round_done (ok res) settled = ground (arith, settled res refl)

  snark_round_done :
      (answer : Result Report SnarkStatus)
      → IsSnarkSettled answer
      → is_done (snark_round B answer) ≡ true
  unfolding snark_round
  snark_round_done (err e) settled = refl
  snark_round_done (ok res) settled = ground (arith, settled res refl)

  -- Where each session and each SNARK session answers, within the polls that are given, with an error
  -- or with any status but that it runs, the run ends: with a proof, an error or a panic.
  pub run_bonsai_ends :
      (var : String → Option String) (fuel : ℕ) (input : Bytes)
      → ((client : B.Client) (session : B.Session)
          → (k : ℕ) × (k < fuel) × IsStarkSettled (B.session_status client session k))
      → ((client : B.Client) (snark : B.SnarkSession)
          → (k : ℕ) × (k < fuel) × IsSnarkSettled (B.snark_status client snark k))
      → run_bonsai B var fuel input ≢ err still_polling
  unfolding run_bonsai
  run_bonsai_ends var fuel input stark_settles snark_settles h =
      after (try_ok B.from_env) _ (try_ends B.from_env) h λ client h₁.
        after (expect_some (var "IMAGE_ID_BONSAI") env_var_missing) _
          (expect_ends (var "IMAGE_ID_BONSAI") env_var_missing) h₁
          λ image_id h₂.
            after (try_ok (B.upload_input client input)) _ (try_ends (B.upload_input client input))
              h₂
              λ input_id h₃.
                after (try_ok (B.create_session client image_id input_id false)) _
                  (try_ends (B.create_session client image_id input_id false)) h₃
                  λ session h₄.
                    after (poll (λ n. stark_round B (B.session_status client session n)) fuel 0) _
                      (let (k, small, ends) = stark_settles client session in
                        loop_ends (λ n. stark_round B (B.session_status client session n)) fuel k
                          small (stark_round_done _ ends)
                          (λ j. stark_round_ends (B.session_status client session j)))
                      h₄
                      λ kept h₅.
                        after (try_ok (B.create_snark client (B.uuid session))) _
                          (try_ends (B.create_snark client (B.uuid session))) h₅
                          λ snark h₆.
                            after (poll (λ n. snark_round B (B.snark_status client snark n)) fuel 0)
                              _
                              (let (k, small, ends) = snark_settles client snark in
                                loop_ends (λ n. snark_round B (B.snark_status client snark n)) fuel
                                  k small (snark_round_done _ ends)
                                  (λ j. snark_round_ends (B.snark_status client snark j)))
                              h₆
                              λ url h₇.
                                after (try_ok (B.download client url)) _
                                  (try_ends (B.download client url)) h₇
                                  λ buf h₈.
                                    after (try_ok (B.deserialize buf)) _
                                      (try_ends (B.deserialize buf)) h₈ λ receipt h₉. absurd (cc)
