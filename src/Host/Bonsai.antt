-- ===== src/Host/Bonsai.antt =====
-- `run_bonsai` and `get_proof_data_prove_sdk`: a proof by the Bonsai service, which is polled until
-- its two phases have ended.
pub mod Polling
pub mod Proved
pub mod Ended
use malda_lending_fuzz.Prelude.{
  ℕ, zero, suc, Bool, false, String, Option, none, some, List, Result, Report, library_error, ok,
  err, Panic, ◌>>=◌, env_var_missing, stats_missing,
}
use malda_lending_fuzz.Bytes.{Bytes, Address}
use malda_lending_fuzz.Externals.{Externals}
use malda_lending_fuzz.Host.Network.{Network}
use malda_lending_fuzz.Host.Session.{get_proof_data_input}

-- The status strings that the code tells apart.
pub data JobStatus : Type 0 where
  running succeeded other : JobStatus

pub record SessionStats : Type 0 where
  pub segments : ℕ
  pub total_cycles : ℕ
  pub cycles : ℕ

pub record SessionStatus : Type 0 where
  pub status : JobStatus
  pub stats : Option SessionStats

pub record SnarkStatus : Type 0 where
  pub status : JobStatus
  pub output : Option String

-- The SDK. A status is a function of the number of polls before, and the clocks of the two phases
-- are read once.
pub record Bonsai : Type 1 where
  pub Client : Type 0
  pub from_env : Result Report Client
  pub upload_input : Client → Bytes → Result Report String
  pub Session : Type 0
  pub create_session :
      Client → (image_id input_id : String) → (execute_only : Bool) → Result Report Session
  pub uuid : Session → String
  pub session_status : Client → Session → ℕ → Result Report SessionStatus
  pub SnarkSession : Type 0
  pub create_snark : Client → String → Result Report SnarkSession
  pub snark_status : Client → SnarkSession → ℕ → Result Report SnarkStatus
  pub download : Client → String → Result Report Bytes
  pub Receipt : Type 0
  pub deserialize : Bytes → Result Report Receipt
  pub stark_secs : Session → ℕ
  pub snark_secs : SnarkSession → ℕ

pub record MaldaSessionStats : Type 0 where
  pub segments : ℕ
  pub total_cycles : ℕ
  pub user_cycles : ℕ
  pub paging_cycles : ℕ
  pub reserved_cycles : ℕ

pub record MaldaProveInfo (B : Bonsai) : Type 0 where
  pub receipt : B.Receipt
  pub stats : MaldaSessionStats
  pub uuid : String
  pub stark_time : ℕ
  pub snark_time : ℕ

-- How a run ends without a proof, or that it has not ended after the polls that it was given.
pub data Failure : Type 0 where
  panicked : Panic → Failure
  failed : Report → Failure
  still_polling : Failure

-- The `?` operator.
unfoldable pub try_ok {ℓ} : {A : Type ℓ} → Result Report A → Result Failure A
try_ok (ok a) = ok a
try_ok (err e) = err (failed e)

unfoldable pub expect_some {ℓ} : {A : Type ℓ} → Option A → Panic → Result Failure A
expect_some none p = err (panicked p)
expect_some (some a) p = ok a

-- One round of a loop: go on, or leave it.
pub data Round {ℓ} (A : Type ℓ) : Type ℓ where
  again : Round A
  done : Result Failure A → Round A

-- A loop, from its poll `n` on.
unfoldable pub poll {ℓ} : {A : Type ℓ} → (ℕ → Round A) → ℕ → ℕ → Result Failure A
poll round zero n = err still_polling
poll round (suc fuel) n = elim (round n) [ again ↦ poll round fuel (suc n) | done r ↦ r ]

-- The statistics that are kept of a session.
unfoldable pub kept_stats : SessionStats → MaldaSessionStats
kept_stats s = record {
  segments = s.segments;
  total_cycles = s.total_cycles;
  user_cycles = s.cycles;
  paging_cycles = 0;
  reserved_cycles = 0;
}

module _ (B : Bonsai) where
  -- What the first loop does with a status.
  unfoldable pub stark_round : Result Report SessionStatus → Round MaldaSessionStats
  stark_round (err e) = done (err (failed e))
  stark_round (ok res) = elim res.status [
    | running ↦ again
    | succeeded ↦ done (do stats ← expect_some res.stats stats_missing; ok (kept_stats stats))
    | other ↦ done (err (failed library_error))
  ]

  -- The same for the second loop, which ends with the receipt's URL.
  unfoldable pub snark_round : Result Report SnarkStatus → Round String
  snark_round (err e) = done (err (failed e))
  snark_round (ok res) = elim res.status [
    | running ↦ again
    | succeeded ↦ done (elim res.output [ none ↦ err (failed library_error) | some url ↦ ok url ])
    | other ↦ done (err (failed library_error))
  ]

  unfoldable pub run_bonsai :
      (String → Option String) → ℕ → Bytes → Result Failure (MaldaProveInfo B)
  run_bonsai var fuel input_data = do
    client ← try_ok B.from_env
    image_id_hex ← expect_some (var "IMAGE_ID_BONSAI") env_var_missing
    input_id ← try_ok (B.upload_input client input_data)
    session ← try_ok (B.create_session client image_id_hex input_id false)
    succinct_stats ← poll (λ n. stark_round (B.session_status client session n)) fuel 0
    snark_session ← try_ok (B.create_snark client (B.uuid session))
    url ← poll (λ n. snark_round (B.snark_status client snark_session n)) fuel 0
    receipt_buf ← try_ok (B.download client url)
    groth16_receipt ← try_ok (B.deserialize receipt_buf)
    ok (record {
      receipt = groth16_receipt;
      stats = succinct_stats;
      uuid = B.uuid session;
      stark_time = B.stark_secs session;
      snark_time = B.snark_secs snark_session;
    })

  -- A panic of the blocking task is an error of its join, which `?` returns.
  unfoldable pub joined {ℓ} : {A : Type ℓ} → Result Failure A → Result Failure A
  joined (ok a) = ok a
  joined (err (panicked p)) = err (failed library_error)
  joined (err (failed e)) = err (failed e)
  joined (err still_polling) = err still_polling

  unfoldable pub get_proof_data_prove_sdk :
      {X : Externals}
      → Network X
      → Bool
      → Bool
      → ℕ
      → List (List Address)
      → List (List Address)
      → List (List ℕ)
      → List ℕ
      → Result Failure (MaldaProveInfo B)
  get_proof_data_prove_sdk N l1_inclusion fallback fuel users markets target_chain_ids chain_ids =
      elim (get_proof_data_input N l1_inclusion fallback users markets target_chain_ids chain_ids) [
        | err _ ↦ err (failed library_error)
        | ok input ↦ joined (run_bonsai N.var fuel input)
      ]
