-- ===== src/Guest.antt =====
-- crates/guest/src/get_proof_data.rs: the program whose execution is proved.
pub mod Laws
use malda_lending_fuzz.Prelude.{
  ℕ, zero, suc, Bool, not, ◌&&◌, List, [], ◌∷◌, ◌==◌, Outcome, ok, err, ◌>>=◌, ◌>>◌, assert,
  unsupported_guest_chain, input_exhausted,
}
use malda_lending_fuzz.Bytes.{Bytes}
use malda_lending_fuzz.Constants.{
  linea_chain_id, base_chain_id, ethereum_chain_id, optimism_chain_id,
}
use malda_lending_fuzz.Externals.{Externals}
use malda_lending_fuzz.Validators.ProofCall.{Request, validate_get_proof_data_call}

-- The test on the chain: the guest is built for the mainnet chains.
unfoldable pub is_unsupported : ℕ → Bool
is_unsupported chain_id =
    not (chain_id == linea_chain_id)
    && not (chain_id == base_chain_id)
    && not (chain_id == ethereum_chain_id)
    && not (chain_id == optimism_chain_id)

module _ (X : Externals) where
  -- The loop: `env::read` panics where the input has ended.
  unfoldable pub read_loop : ℕ → List (Request X) → List Bytes → Outcome (List Bytes)
  read_loop zero input output = ok output
  read_loop (suc rounds) [] output = err input_exhausted
  read_loop (suc rounds) (r ∷ input) output = do
    assert (not (is_unsupported r.chain_id)) unsupported_guest_chain
    output' ← validate_get_proof_data_call X r output
    read_loop rounds input output'

  -- What `commit_slice` writes to the journal.
  unfoldable pub main : ℕ → List (Request X) → Outcome Bytes
  main rounds input = do output ← read_loop rounds input []; ok (X.abi_encode_journal output)
