-- ===== src/Host/Bonsai/Proved.antt =====
-- What a proof by Bonsai went through.
use malda_lending_fuzz.Prelude.{
  ℕ, ◌≡◌, refl, sym, ap, ◌∙◌, arith, false, String, Option, none, some, Result, Report, Panic,
  env_var_missing, ok, err, ok_unique, bind_ok,
}
use malda_lending_fuzz.Bytes.{Bytes}
use malda_lending_fuzz.Host.Bonsai.{
  Bonsai, done, poll, try_ok, expect_some, kept_stats, SessionStats, SessionStatus, SnarkStatus,
  succeeded, stark_round, snark_round, MaldaProveInfo, run_bonsai,
}
use malda_lending_fuzz.Host.Bonsai.Polling.{poll_sound}

try_ok-eq-ok {ℓ} : {A : Type ℓ} (r : Result Report A) {a : A} → try_ok r ≡ ok a → r ≡ ok a
unfolding try_ok
try_ok-eq-ok (ok a) h = cc
try_ok-eq-ok (err e) h = absurd (cc)

expect_some-eq-ok {ℓ} :
    {A : Type ℓ} (o : Option A) (p : Panic) {a : A} → expect_some o p ≡ ok a → o ≡ some a
unfolding expect_some
expect_some-eq-ok none p h = absurd (cc)
expect_some-eq-ok (some a) p h = cc

module _ (B : Bonsai) where
  -- What stands behind a proof: both phases have succeeded.
  pub record Proved (var : String → Option String) (input : Bytes) (info : MaldaProveInfo B)
      : Type 0 where
    pub client : B.Client
    pub image_id : String
    pub input_id : String
    pub session : B.Session
    pub polls : ℕ
    pub stats : SessionStats
    pub snark : B.SnarkSession
    pub snark_polls : ℕ
    pub url : String
    pub receipt_buf : Bytes
    pub connected : B.from_env ≡ ok client
    pub image_set : var "IMAGE_ID_BONSAI" ≡ some image_id
    pub uploaded : B.upload_input client input ≡ ok input_id
    pub created : B.create_session client image_id input_id false ≡ ok session
    pub stark_succeeded :
        B.session_status client session polls
        ≡ ok (record { status = succeeded; stats = some stats })
    pub snark_created : B.create_snark client (B.uuid session) ≡ ok snark
    pub snark_succeeded :
        B.snark_status client snark snark_polls
        ≡ ok (record { status = succeeded; output = some url })
    pub downloaded : B.download client url ≡ ok receipt_buf
    pub deserialized : B.deserialize receipt_buf ≡ ok info.receipt
    pub kept : info.stats ≡ record {
      segments = stats.segments;
      total_cycles = stats.total_cycles;
      user_cycles = stats.cycles;
      paging_cycles = 0;
      reserved_cycles = 0;
    }

  abbrev no_stats : SessionStats
  no_stats = record { segments = 0; total_cycles = 0; cycles = 0 }

  stark_round_succeeded :
      (answer : Result Report SessionStatus) {kept : _}
      → stark_round B answer ≡ done (ok kept)
      → (stats : SessionStats) × (answer ≡ ok (record { status = succeeded; stats = some stats }))
        × (kept ≡ kept_stats stats)
  unfolding stark_round expect_some
  stark_round_succeeded answer h = (
    elim answer [
      | err _ ↦ no_stats
      | ok res ↦ elim res.stats [ none ↦ no_stats | some stats ↦ stats ]
    ],
    ground arith,
    ground arith,
  )

  snark_round_succeeded :
      (answer : Result Report SnarkStatus) {url : String}
      → snark_round B answer ≡ done (ok url)
      → answer ≡ ok (record { status = succeeded; output = some url })
  unfolding snark_round
  snark_round_succeeded answer h = ground arith

  -- A proof by Bonsai has an image identifier that was set, an uploaded input, a session and a SNARK
  -- session that have both answered that they succeeded, and is the receipt downloaded from the URL
  -- in that answer, with the statistics of the session.
  pub run_bonsai_sound :
      (var : String → Option String) (fuel : ℕ) (input : Bytes) (info : MaldaProveInfo B)
      → run_bonsai B var fuel input ≡ ok info
      → Proved var input info
  unfolding run_bonsai kept_stats
  run_bonsai_sound var fuel input info h = bind_ok (try_ok B.from_env) _ h λ client e₁ h₁.
      bind_ok (expect_some (var "IMAGE_ID_BONSAI") env_var_missing) _ h₁ λ image_id e₂ h₂.
        bind_ok (try_ok (B.upload_input client input)) _ h₂ λ input_id e₃ h₃.
          bind_ok (try_ok (B.create_session client image_id input_id false)) _ h₃ λ session e₄ h₄.
            bind_ok (poll (λ n. stark_round B (B.session_status client session n)) fuel 0) _ h₄
              λ kept e₅ h₅.
                bind_ok (try_ok (B.create_snark client (B.uuid session))) _ h₅ λ snark e₆ h₆.
                  bind_ok (poll (λ n. snark_round B (B.snark_status client snark n)) fuel 0) _ h₆
                    λ url e₇ h₇. bind_ok (try_ok (B.download client url)) _ h₇ λ buf e₈ h₈.
                      bind_ok (try_ok (B.deserialize buf)) _ h₈ λ receipt e₉ h₉.
                        let (polls, stark) = poll_sound _ fuel 0 e₅ in
                        let (snark_polls, last) = poll_sound _ fuel 0 e₇ in
                        let (stats, answered, same) = stark_round_succeeded _ stark in
                        let info_is = ok_unique refl h₉ in
                        record {
                          client = client;
                          image_id = image_id;
                          input_id = input_id;
                          session = session;
                          polls = polls;
                          stats = stats;
                          snark = snark;
                          snark_polls = snark_polls;
                          url = url;
                          receipt_buf = buf;
                          connected = try_ok-eq-ok B.from_env e₁;
                          image_set = expect_some-eq-ok (var "IMAGE_ID_BONSAI") env_var_missing e₂;
                          uploaded = try_ok-eq-ok (B.upload_input client input) e₃;
                          created =
                              try_ok-eq-ok (B.create_session client image_id input_id false) e₄;
                          stark_succeeded = answered;
                          snark_created = try_ok-eq-ok (B.create_snark client (B.uuid session)) e₆;
                          snark_succeeded = snark_round_succeeded _ last;
                          downloaded = try_ok-eq-ok (B.download client url) e₈;
                          deserialized =
                              try_ok-eq-ok (B.deserialize buf) e₉
                              ∙ ap (λ (i : MaldaProveInfo B). ok i.receipt) info_is;
                          kept = sym (ap (λ (i : MaldaProveInfo B). i.stats) info_is) ∙ same;
                        }
