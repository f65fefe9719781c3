-- ===== src/Validators/Batch/Calls.antt =====
-- What a batch appends to the output.
use malda_lending_fuzz.Prelude.{
  ℕ, min, ◌≡◌, refl, ap, ◌∙◌, arith, Bool, List, [], ◌∷◌, ◌++◌, map, length, ok, bind_ok,
}
use malda_lending_fuzz.Bytes.{Bytes, Address}
use malda_lending_fuzz.Constants.{multicall}
use malda_lending_fuzz.Externals.{Externals, Factory}
use malda_lending_fuzz.Types.Contracts.{CallResult, aggregate3}
use malda_lending_fuzz.Validators.Batch.{
  Query, batch_params, query_call, encode_result, encode_results, batch_call_get_proof_data,
}
use mathlib.Core.List.{append-nil, append_assoc}

-- The queries are as many as the shortest of the three vectors: what is longer is cut off without an
-- error.
pub length-batch_params :
    (account asset : List Address) (target_chain_ids : List ℕ)
    → length (batch_params account asset target_chain_ids)
      ≡ min (length account) (min (length asset) (length target_chain_ids))
unfolding batch_params
length-batch_params [] asset targets = omega arith
length-batch_params (a ∷ account) [] targets = omega arith
length-batch_params (a ∷ account) (m ∷ asset) [] = omega arith
length-batch_params (a ∷ account) (m ∷ asset) (t ∷ targets) =
    omega (arith, length-batch_params account asset targets)

module _ (X : Externals) (chain_id : ℕ) (validate_l1_inclusion : Bool) where
  -- The entries are those of the queries and their results, pair by pair.
  abbrev pub Encoded : List Query → List CallResult → List Bytes → Type 0
  Encoded [] results entries = entries ≡ []
  Encoded (q ∷ queries) [] entries = entries ≡ []
  Encoded (q ∷ queries) (result ∷ results) [] = ⊥
  Encoded (q ∷ queries) (result ∷ results) (entry ∷ entries) =
      (encode_result X chain_id validate_l1_inclusion q result ≡ ok entry)
      × Encoded queries results entries

  length-Encoded :
      (queries : List Query) (results : List CallResult) (entries : List Bytes)
      → Encoded queries results entries
      → length entries ≡ min (length queries) (length results)
  length-Encoded [] results entries e = omega (arith, ap length e)
  length-Encoded (q ∷ queries) [] entries e = omega (arith, ap length e)
  length-Encoded (q ∷ queries) (r ∷ results) [] e = elim e [ ]
  length-Encoded (q ∷ queries) (r ∷ results) (x ∷ entries) (_, e) =
      omega (arith, length-Encoded queries results entries e)

  encode_results_sound :
      (queries : List Query) (results : List CallResult) (output out : List Bytes)
      → encode_results X chain_id validate_l1_inclusion queries results output ≡ ok out
      → (entries : List Bytes) × (out ≡ output ++ entries) × Encoded queries results entries
  unfolding encode_results
  encode_results_sound [] results output out h = ([], rw append-nil (cc), refl)
  encode_results_sound (q ∷ queries) [] output out h = ([], rw append-nil (cc), refl)
  encode_results_sound (q ∷ queries) (result ∷ results) output out h =
      bind_ok (encode_result X chain_id validate_l1_inclusion q result) _ h λ entry encoded h₁.
        let (entries, appended, e) =
          encode_results_sound queries results (output ++ entry ∷ []) out h₁ in
        (entry ∷ entries, appended ∙ append_assoc output (entry ∷ []) entries, (encoded, e))

  -- An accepted batch has appended to the output, in order, the journal entry of each query and its
  -- answer: as many as there are both queries and answers.
  pub batch_call_get_proof_data_sound :
      (f : Factory) (account asset : List Address) (target_chain_ids : List ℕ) (env : X.EvmEnv f)
      (output out : List Bytes)
      → batch_call_get_proof_data X chain_id validate_l1_inclusion f account asset target_chain_ids
          env output
        ≡ ok out
      → (results : List CallResult) × (entries : List Bytes) × (X.call f env multicall
            (aggregate3 (map query_call (batch_params account asset target_chain_ids)))
          ≡ ok results)
        × (out ≡ output ++ entries)
        × Encoded (batch_params account asset target_chain_ids) results entries
        × (length entries
            ≡ min
                (min (length account) (min (length asset) (length target_chain_ids)))
                (length results))
  unfolding batch_call_get_proof_data
  batch_call_get_proof_data_sound f account asset target_chain_ids env output out h =
      bind_ok
        (X.call f env multicall
          (aggregate3 (map query_call (batch_params account asset target_chain_ids))))
        _ h
        λ results called h₁.
          let queries = batch_params account asset target_chain_ids in
          let (entries, appended, e) = encode_results_sound queries results output out h₁ in
          (
            results,
            entries,
            called,
            appended,
            e,
            length-Encoded queries results entries e
                ∙ ap (λ (n : ℕ). min n (length results))
                    (length-batch_params account asset target_chain_ids),
          )
