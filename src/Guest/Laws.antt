-- ===== src/Guest/Laws.antt =====
-- What an accepted run of the guest has checked.
use malda_lending_fuzz.Prelude.{
  ℕ, zero, suc, ◌<◌, ◌≡◌, ◌≢◌, ◌↔◌, ◌⊎◌, ap, arith, false, not, List, [], ◌∷◌, length, ok, bind_ok,
  assert_ok, unsupported_guest_chain,
}
use malda_lending_fuzz.Bytes.{Bytes}
use malda_lending_fuzz.Constants.{
  linea_chain_id, base_chain_id, ethereum_chain_id, optimism_chain_id,
}
use malda_lending_fuzz.Externals.{Externals}
use malda_lending_fuzz.Validators.ProofCall.{Request, validate_get_proof_data_call}
use malda_lending_fuzz.Guest.{is_unsupported, read_loop, main}

-- The four chains of the mainnet build.
abbrev pub IsMainnet : ℕ → Type 0
IsMainnet chain_id =
    (chain_id ≡ linea_chain_id)
    ⊎ (chain_id ≡ base_chain_id)
    ⊎ (chain_id ≡ ethereum_chain_id)
    ⊎ (chain_id ≡ optimism_chain_id)

is_unsupported-eq-false : (chain_id : ℕ) → is_unsupported chain_id ≡ false → IsMainnet chain_id
unfolding is_unsupported
is_unsupported-eq-false chain_id h = ground arith

IsMainnet-supported : (chain_id : ℕ) → IsMainnet chain_id → is_unsupported chain_id ≡ false
unfolding is_unsupported
IsMainnet-supported chain_id h = ground arith

module _ (X : Externals) where
  -- The requests are accepted one behind the other, each on the output of the one before, and each
  -- on a mainnet chain.
  abbrev pub Run : ℕ → List (Request X) → List Bytes → List Bytes → Type 0
  Run zero input output out = output ≡ out
  Run (suc rounds) [] output out = ⊥
  Run (suc rounds) (r ∷ input) output out =
      IsMainnet r.chain_id
      × ((output' : List Bytes) × (validate_get_proof_data_call X r output ≡ ok output')
          × Run rounds input output' out)

  read_loop_sound :
      (rounds : ℕ) (input : List (Request X)) (output out : List Bytes)
      → read_loop X rounds input output ≡ ok out
      → Run rounds input output out
  unfolding read_loop
  read_loop_sound zero input output out h = cc
  read_loop_sound (suc rounds) [] output out h = cc
  read_loop_sound (suc rounds) (r ∷ input) output out h =
      assert_ok (not (is_unsupported r.chain_id)) unsupported_guest_chain _ h λ supported h₁.
        bind_ok (validate_get_proof_data_call X r output) _ h₁ λ output' accepted h₂. (
          is_unsupported-eq-false r.chain_id (ground arith),
          (output', accepted, read_loop_sound rounds input output' out h₂),
        )

  read_loop_complete :
      (rounds : ℕ) (input : List (Request X)) (output out : List Bytes)
      → Run rounds input output out
      → read_loop X rounds input output ≡ ok out
  unfolding read_loop
  read_loop_complete zero input output out h = ap ok h
  read_loop_complete (suc rounds) [] output out h = elim h [ ]
  read_loop_complete (suc rounds) (r ∷ input) output out (mainnet, (output', accepted, run)) =
      rw (IsMainnet-supported r.chain_id mainnet, accepted)
        (read_loop_complete rounds input output' out run)

  -- The guest commits to a journal exactly where, for as many requests as the count it read first,
  -- each is there, is for Linea, Base, Ethereum or Optimism, and is accepted on the output of those
  -- before it; the journal is the encoding of the last output.
  pub main_iff :
      (rounds : ℕ) (input : List (Request X)) (journal : Bytes)
      → (main X rounds input ≡ ok journal) ↔ (
          (output : List Bytes) × Run rounds input [] output
          × (X.abi_encode_journal output ≡ journal))
  unfolding main
  main_iff rounds input journal = (
    λ h.
        bind_ok (read_loop X rounds input []) _ h
          λ output accepted rest. (output, read_loop_sound rounds input [] output accepted, cc),
    λ (output, run, e). rw (read_loop_complete rounds input [] output run) (ap ok e),
  )

  no-Run :
      (rounds : ℕ) (input : List (Request X)) (output out : List Bytes)
      → length input < rounds
      → ¬ Run rounds input output out
  no-Run zero input output out short run = absurd (omega arith)
  no-Run (suc rounds) [] output out short run = run
  no-Run (suc rounds) (r ∷ input) output out short (_, (output', _, run)) =
      no-Run rounds input output' out (omega arith) run

  -- A count that is larger than the number of requests makes the guest panic, with no journal.
  pub main_short :
      (rounds : ℕ) (input : List (Request X)) (journal : Bytes)
      → length input < rounds
      → main X rounds input ≢ ok journal
  main_short rounds input journal short h =
      let (output, run, _) = (main_iff rounds input journal).0 h in
      no-Run rounds input [] output short run
