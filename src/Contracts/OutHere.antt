-- ===== src/Contracts/OutHere.antt =====
-- `outHere` of contracts/src/mToken/extension/mTokenGateway.sol: the payment of what a proof credits.
pub mod Credited
use malda_lending_fuzz.Prelude.{
  ℕ, ◌^◌, ◌%◌, Bool, true, false, ◌||◌, ltb, leb, ◌==◌, if◌then◌else◌, length, List, [], ◌∷◌,
  Result, ok, err, ◌>>=◌, ◌>>◌,
}
use malda_lending_fuzz.Bytes.{Bytes, Address, U256}
use malda_lending_fuzz.Constants.{linea_chain_id}
use malda_lending_fuzz.Journal.{Entry}
use malda_lending_fuzz.Contracts.{
  Error, caller_not_allowed, address_not_valid, chain_not_valid, amount_not_valid, amount_too_big,
  release_cash_not_available, length_not_valid, journal_not_valid, l1_inclusion_required,
  call_reverted, arithmetic, require, checked_add, checked_sub, decoded, update, proof_forwarder,
  proof_batch_forwarder, Deployment, Context, reverted,
}
use malda_lending_fuzz.Contracts.Gateway.{
  Gateway, amount_out_here, extracted, not_paused, if_not_blacklisted,
}

module _ (D : Deployment) where
  unfoldable pub check_sender : Context → Gateway D → (msg_sender src_sender : Address) → Bool
  check_sender c g msg_sender src_sender =
      msg_sender == src_sender
      || g.allowed_callers src_sender msg_sender
      || msg_sender == g.owner
      || c.is_allowed_for msg_sender proof_forwarder
      || c.is_allowed_for msg_sender proof_batch_forwarder

  -- The effects of `_outHere` for an entry, which follow its checks.
  unfoldable pub pay : Gateway D → Entry → U256 → Result Error (Gateway D)
  pay g e amount = do
    total ← checked_add (g.acc_amount_out e.sender) amount
    token ← reverted (D.safe_transfer g.token D.this e.sender amount)
    ok (record g {
      acc_amount_out = update g.acc_amount_out e.sender total;
      token = token;
      log = extracted e.sender amount ∷ g.log;
    })

  -- `_outHere`: the entry's sender is paid, whatever receiver is named.
  unfoldable pub out_here_one : Context → Gateway D → Bytes → U256 → Result Error (Gateway D)
  out_here_one c g journal amount = do
    e ← decoded journal
    require (check_sender c g c.sender e.sender) caller_not_allowed
    require (e.market == D.this) address_not_valid
    require (e.chain_id == linea_chain_id) chain_not_valid
    require (e.dst_chain_id == D.chain_id % 2 ^ 32) chain_not_valid
    require (ltb 0 amount) amount_not_valid
    left ← checked_sub e.acc_amount_out (g.acc_amount_out e.sender)
    require (leb amount left) amount_too_big
    require (leb amount (D.balance_of g.token D.this)) release_cash_not_available
    pay g e amount

  -- The loop over the journals and their amounts, whose numbers agree.
  unfoldable pub out_here_all :
      Context → Gateway D → List Bytes → List U256 → Result Error (Gateway D)
  out_here_all c g [] amounts = ok g
  out_here_all c g (journal ∷ journals) [] = err arithmetic
  out_here_all c g (journal ∷ journals) (amount ∷ amounts) = do
    g' ← out_here_one c g journal amount
    out_here_all c g' journals amounts

  -- The loop that asks each journal for the inclusion flag.
  unfoldable pub all_included : List Bytes → Result Error (Unit {0})
  all_included [] = ok tt
  all_included (journal ∷ journals) = do
    e ← decoded journal
    require e.l1_inclusion l1_inclusion_required
    all_included journals

  unfoldable pub verify_proof :
      Context → Gateway D → (journal_data seal : Bytes) → Result Error (Unit {0})
  verify_proof c g journal_data seal = do
    require (ltb 0 (length journal_data)) journal_not_valid
    journals ← reverted (c.abi_decode journal_data)
    let is_sequencer =
        c.is_allowed_for c.sender proof_forwarder || c.is_allowed_for c.sender proof_batch_forwarder
    if is_sequencer then ok tt else all_included journals
    require (c.verify_input g.verifier journal_data seal) call_reverted

  unfoldable pub out_here :
      Context
      → Gateway D
      → (journal_data seal : Bytes) → (amounts : List U256) → (receiver : Address)
      → Result Error (Gateway D)
  out_here c g journal_data seal amounts receiver = do
    not_paused D g amount_out_here
    if_not_blacklisted D c c.sender
    if_not_blacklisted D c receiver
    if c.is_allowed_for c.sender proof_batch_forwarder
        then ok tt
        else verify_proof c g journal_data seal
    journals ← reverted (c.abi_decode journal_data)
    require (length journals == length amounts) length_not_valid
    out_here_all c g journals amounts
