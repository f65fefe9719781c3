-- ===== src/Journal/Entries.antt =====
-- The journal of a whole batch: the entries of its queries and the amounts that answer them.
use malda_lending_fuzz.Prelude.{ℕ, ◌≡◌, sym, ap, Bool, List, [], ◌∷◌, ◌++◌, ok}
use malda_lending_fuzz.Bytes.{Bytes, U256}
use malda_lending_fuzz.Externals.{Externals}
use malda_lending_fuzz.Types.Contracts.{CallResult}
use malda_lending_fuzz.Validators.Batch.{Query, encode_result, encode_results}
use malda_lending_fuzz.Journal.RoundTrip.{entry_bytes, encode_packed-journal_items}
use mathlib.Core.List.{append-nil, append_assoc}

module _ (X : Externals) (chain_id : ℕ) (flag : Bool) where
  -- Each query has an answer, which decodes to its amounts.
  abbrev pub Decoded : List Query → List CallResult → List (U256 × U256) → Type 0
  Decoded (q ∷ queries) (answer ∷ answers) (a ∷ amounts) =
      (X.abi_decode_amounts answer.return_data ≡ ok a) × Decoded queries answers amounts
  Decoded [] [] [] = Unit {0}
  Decoded _ _ _ = ⊥

  -- The journal entries of the queries and their amounts.
  abbrev pub entries_of : List Query → List (U256 × U256) → List Bytes
  entries_of (q ∷ queries) ((amount_in, amount_out) ∷ amounts) =
      entry_bytes chain_id flag q amount_in amount_out ∷ entries_of queries amounts
  entries_of _ _ = []

  pub encode_results-entries_of :
      (queries : List Query) (answers : List CallResult) (amounts : List (U256 × U256))
      (output : List Bytes)
      → Decoded queries answers amounts
      → encode_results X chain_id flag queries answers output
        ≡ ok (output ++ entries_of queries amounts)
  unfolding encode_results encode_result
  encode_results-entries_of [] [] [] output d = ap ok (sym (append-nil output))
  encode_results-entries_of (q ∷ queries) (r ∷ answers) ((a, b) ∷ amounts) output (decoded, d) =
      rw
        (
          decoded,
          encode_packed-journal_items X chain_id flag q a b,
          encode_results-entries_of queries answers amounts
              (output ++ entry_bytes chain_id flag q a b ∷ []) d,
        )
        (ap ok (append_assoc output (entry_bytes chain_id flag q a b ∷ []) _))
  encode_results-entries_of [] [] (a ∷ amounts) output d = elim d [ ]
  encode_results-entries_of [] (r ∷ answers) amounts output d = elim d [ ]
  encode_results-entries_of (q ∷ queries) [] amounts output d = elim d [ ]
  encode_results-entries_of (q ∷ queries) (r ∷ answers) [] output d = elim d [ ]
