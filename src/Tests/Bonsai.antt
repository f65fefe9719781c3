-- ===== src/Tests/Bonsai.antt =====
-- An example of a proof by Bonsai.
use malda_lending_fuzz.Prelude.{
  ℕ, ◌<◌, ◌≡◌, ◌≢◌, refl, arith, String, none, some, [], ◌∷◌, ltb, if◌then◌else◌, ok, err,
}
use malda_lending_fuzz.Bytes.{Bytes}
use malda_lending_fuzz.Host.Bonsai.{
  Bonsai, MaldaProveInfo, running, succeeded, still_polling, run_bonsai, try_ok, expect_some, poll,
  stark_round, snark_round, kept_stats,
}
use malda_lending_fuzz.Host.Bonsai.Proved.{Proved, run_bonsai_sound}
use malda_lending_fuzz.Host.Bonsai.Ended.{IsStarkSettled, IsSnarkSettled, run_bonsai_ends}

-- A service whose phases run for two polls; a receipt is its bytes.
abbrev service : Bonsai
service = record {
  Client = ℕ;
  from_env = ok 0;
  upload_input = λ _ _. ok "input";
  Session = String;
  create_session = λ _ image_id _ _. ok image_id;
  uuid = λ session. session;
  session_status = λ _ _ n.
      if ltb n 2
      then ok (record { status = running; stats = none })
      else ok (record {
        status = succeeded;
        stats = some (record { segments = 1; total_cycles = 20; cycles = 10 });
      });
  SnarkSession = String;
  create_snark = λ _ uuid. ok uuid;
  snark_status = λ _ _ n.
      if ltb n 2
      then ok (record { status = running; output = none })
      else ok (record { status = succeeded; output = some "url" });
  download = λ _ _. ok (7 ∷ []);
  Receipt = Bytes;
  deserialize = λ bytes. ok bytes;
  stark_secs = λ _. 3;
  snark_secs = λ _. 4;
}

abbrev info : MaldaProveInfo service
info = record {
  receipt = 7 ∷ [];
  stats = record {
    segments = 1;
    total_cycles = 20;
    user_cycles = 10;
    paging_cycles = 0;
    reserved_cycles = 0;
  };
  uuid = "image";
  stark_time = 3;
  snark_time = 4;
}

proved : run_bonsai service (λ _. some "image") 3 [] ≡ ok info
unfolding run_bonsai try_ok expect_some poll stark_round snark_round kept_stats
proved = refl

run_bonsai_sound_example : Proved service (λ _. some "image") [] info
run_bonsai_sound_example = run_bonsai_sound service (λ _. some "image") 3 [] info proved

stark_ends :
    (client : ℕ) (session : String)
    → (k : ℕ) × (k < 3) × IsStarkSettled service (service.session_status client session k)
stark_ends client session = (2, omega arith, λ res answered h. ground arith)

snark_ends :
    (client : ℕ) (snark : String)
    → (k : ℕ) × (k < 3) × IsSnarkSettled service (service.snark_status client snark k)
snark_ends client snark = (2, omega arith, λ res answered h. ground arith)

run_bonsai_ends_example : run_bonsai service (λ _. some "image") 3 [] ≢ err still_polling
run_bonsai_ends_example = run_bonsai_ends service (λ _. some "image") 3 [] stark_ends snark_ends
