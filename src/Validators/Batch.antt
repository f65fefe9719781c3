-- ===== src/Validators/Batch.antt =====
-- `batch_call_get_proof_data`: one multicall for all queries, and a journal entry for each answer.
pub mod Calls
use malda_lending_fuzz.Prelude.{
  ℕ, Bool, false, List, [], ◌∷◌, ◌++◌, map, Outcome, ok, ◌>>=◌, expect_ok, return_data_not_decoded,
}
use malda_lending_fuzz.Bytes.{Bytes, Address, U256, to_be_bytes}
use malda_lending_fuzz.Constants.{multicall, selector_malda_get_proof_data}
use malda_lending_fuzz.Externals.{Externals, Factory}
use malda_lending_fuzz.Types.Contracts.{Call3, CallResult, aggregate3}
use malda_lending_fuzz.Types.Abi.{
  SolidityDataType, address, number, number_with_shift, bool, encode_packed,
}

pub record Query : Type 0 where
  pub user : Address
  pub market : Address
  pub target_chain_id : ℕ

-- The three vectors, zipped: the shortest one decides.
unfoldable pub batch_params : List Address → List Address → List ℕ → List Query
batch_params (user ∷ account) (market ∷ asset) (target ∷ target_chain_ids) =
    record { user = user; market = market; target_chain_id = target }
    ∷ batch_params account asset target_chain_ids
batch_params _ _ _ = []

unfoldable pub call_data : Query → Bytes
call_data q =
    selector_malda_get_proof_data ++ (to_be_bytes 32 q.user ++ to_be_bytes 32 q.target_chain_id)

unfoldable pub query_call : Query → Call3
unfolding call_data
query_call q = record { target = q.market; allow_failure = false; call_data = call_data q }

-- The items of a journal entry, in their order.
unfoldable pub journal_items : ℕ → Bool → Query → U256 × U256 → List SolidityDataType
journal_items chain_id validate_l1_inclusion q (amount_in, amount_out) =
    address q.user
    ∷ address q.market
    ∷ number amount_in
    ∷ number amount_out
    ∷ number_with_shift chain_id 32
    ∷ number_with_shift q.target_chain_id 32
    ∷ bool validate_l1_inclusion
    ∷ []

module _ (X : Externals) (chain_id : ℕ) (validate_l1_inclusion : Bool) where
  -- The body of the loop over the results.
  unfoldable pub encode_result : Query → CallResult → Outcome Bytes
  encode_result q result = do
    amounts ← expect_ok (X.abi_decode_amounts result.return_data) return_data_not_decoded
    encoded ← encode_packed X (journal_items chain_id validate_l1_inclusion q amounts)
    ok encoded.0

  -- The loop over the queries zipped with the results.
  unfoldable pub encode_results : List Query → List CallResult → List Bytes → Outcome (List Bytes)
  encode_results (q ∷ queries) (result ∷ results) output = do
    entry ← encode_result q result
    encode_results queries results (output ++ entry ∷ [])
  encode_results _ _ output = ok output

  unfoldable pub batch_call_get_proof_data :
      (f : Factory)
      → List Address
      → List Address
      → List ℕ
      → X.EvmEnv f
      → List Bytes
      → Outcome (List Bytes)
  batch_call_get_proof_data f account asset target_chain_ids env output = do
    let queries = batch_params account asset target_chain_ids
    results ← X.call f env multicall (aggregate3 (map query_call queries))
    encode_results queries results output
