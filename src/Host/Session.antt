-- ===== src/Host/Session.antt =====
-- The sessions over several chains: the chains' inputs are prepared by parallel tasks and put behind
-- the number of chains. The executor and the prover are parameters.
pub mod Joined
use malda_lending_fuzz.Prelude.{
  ℕ, Bool, ◌==◌, length, get_elem?, List, [], ◌∷◌, ◌++◌, concat, map, Result, Report, library_error,
  execution_failed, Outcome, ok, err, ◌>>=◌, ◌>>◌, assert, expect, expect_ok, lengths_differ,
  index_out_of_range, serialization_failed,
}
use malda_lending_fuzz.Bytes.{Bytes, Address}
use malda_lending_fuzz.Externals.{Externals}
use malda_lending_fuzz.Host.Network.{Network}
use malda_lending_fuzz.Host.LinkingBlocks.{join, numbers_from}
use malda_lending_fuzz.Host.ZkvmInput.{get_proof_data_zkvm_input}

-- The arguments of one task.
pub record Task : Type 0 where
  pub users : List Address
  pub markets : List Address
  pub target_chain_id : List ℕ
  pub chain_id : ℕ

-- The arguments of task `i`; a missing index panics.
unfoldable pub task_at :
    List (List Address) → List (List Address) → List (List ℕ) → List ℕ → ℕ → Outcome Task
task_at users markets target_chain_ids chain_ids i = do
  task_users ← expect (get_elem? users i) index_out_of_range
  task_markets ← expect (get_elem? markets i) index_out_of_range
  task_target_chain_id ← expect (get_elem? target_chain_ids i) index_out_of_range
  task_chain_id ← expect (get_elem? chain_ids i) index_out_of_range
  ok (record {
    users = task_users;
    markets = task_markets;
    target_chain_id = task_target_chain_id;
    chain_id = task_chain_id;
  })

-- The tasks for the indices that are left.
unfoldable pub spawn_all :
    List (List Address)
    → List (List Address)
    → List (List ℕ)
    → List ℕ
    → List ℕ
    → Outcome (List Task)
spawn_all users markets target_chain_ids chain_ids [] = ok []
spawn_all users markets target_chain_ids chain_ids (i ∷ indices) = do
  task ← task_at users markets target_chain_ids chain_ids i
  tasks ← spawn_all users markets target_chain_ids chain_ids indices
  ok (task ∷ tasks)

-- `0..n`
unfoldable pub indices_below : ℕ → List ℕ
indices_below n = numbers_from 0 n

-- `filter_map(|r| r.ok())`, and the concatenation: a task that panicked leaves nothing.
unfoldable pub joined_inputs : List (Outcome Bytes) → Bytes
joined_inputs [] = []
joined_inputs (ok input ∷ results) = input ++ joined_inputs results
joined_inputs (err e ∷ results) = joined_inputs results

-- `r.expect(..)`, and the concatenation.
unfoldable pub expected_inputs : List (Outcome Bytes) → Outcome Bytes
expected_inputs [] = ok []
expected_inputs (result ∷ results) = do
  input ← join result
  inputs ← expected_inputs results
  ok (input ++ inputs)

module _ {X : Externals} (N : Network X) (l1_inclusion fallback : Bool) where
  unfoldable pub run_task : Task → Outcome Bytes
  run_task t =
      get_proof_data_zkvm_input N t.users t.markets t.target_chain_id t.chain_id l1_inclusion
        fallback

  -- The assertions and the tasks, which the sessions share.
  unfoldable pub run_tasks :
      List (List Address)
      → List (List Address)
      → List (List ℕ)
      → List ℕ
      → Outcome (List (Outcome Bytes))
  run_tasks users markets target_chain_ids chain_ids = do
    assert (length users == length markets) lengths_differ
    assert (length users == length chain_ids) lengths_differ
    tasks ← spawn_all users markets target_chain_ids chain_ids (indices_below (length chain_ids))
    ok (map run_task tasks)

  -- What `get_proof_data_exec` writes to the executor's environment.
  unfoldable pub exec_input :
      List (List Address) → List (List Address) → List (List ℕ) → List ℕ → Outcome Bytes
  exec_input users markets target_chain_id chain_ids = do
    results ← run_tasks users markets target_chain_id chain_ids
    all_inputs ← expected_inputs results
    count ← expect_ok (N.count_to_vec (length chain_ids)) serialization_failed
    ok (count ++ all_inputs)

  -- A failed execution panics.
  unfoldable pub get_proof_data_exec :
      List (List Address)
      → List (List Address)
      → List (List ℕ)
      → List ℕ
      → Outcome (Result Report N.SessionInfo)
  get_proof_data_exec users markets target_chain_id chain_ids = do
    env ← exec_input users markets target_chain_id chain_ids
    session ← expect_ok (N.execute env) execution_failed
    ok (ok session)

  unfoldable pub get_proof_data_input :
      List (List Address) → List (List Address) → List (List ℕ) → List ℕ → Outcome Bytes
  get_proof_data_input users markets target_chain_ids chain_ids = do
    results ← run_tasks users markets target_chain_ids chain_ids
    count ← expect_ok (N.count_to_vec (length chain_ids)) serialization_failed
    ok (count ++ joined_inputs results)

  -- What `get_proof_data_env` writes to the prover's environment.
  unfoldable pub get_proof_data_env :
      List (List Address) → List (List Address) → List (List ℕ) → List ℕ → Outcome Bytes
  get_proof_data_env users markets target_chain_ids chain_ids = do
    results ← run_tasks users markets target_chain_ids chain_ids
    count ← expect_ok (N.count_to_vec (length chain_ids)) serialization_failed
    ok (count ++ joined_inputs results)

  -- The blocking task: where it panics, the join is an error that `?` returns.
  unfoldable pub get_proof_data_prove :
      List (List Address) → List (List Address) → List (List ℕ) → List ℕ → Result Report N.ProveInfo
  get_proof_data_prove users markets target_chain_ids chain_ids =
      elim (get_proof_data_env users markets target_chain_ids chain_ids) [
        | err _ ↦ err library_error
        | ok env ↦ N.prove_with_opts env
      ]
