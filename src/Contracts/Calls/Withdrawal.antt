-- ===== src/Contracts/Calls/Withdrawal.antt =====
-- The payment of an entry that the coprocessor has written.
use malda_lending_fuzz.Prelude.{
  ◌+◌, ◌^◌, ◌%◌, ◌≤◌, ◌<◌, ◌≡◌, refl, arith, true, false, ltb, length, [], ◌∷◌, ok,
}
use malda_lending_fuzz.Bytes.{Bytes, U256}
use malda_lending_fuzz.Constants.{linea_chain_id}
use malda_lending_fuzz.Journal.{Entry}
use malda_lending_fuzz.Journal.RoundTrip.{entry_bytes, decode_journal-entry_bytes}
use malda_lending_fuzz.Validators.Batch.{Query}
use malda_lending_fuzz.Contracts.{
  update, Deployment, Context, decoded, proof_forwarder, proof_batch_forwarder,
}
use malda_lending_fuzz.Contracts.Gateway.{
  extracted, Gateway, amount_out_here, not_paused, if_not_blacklisted,
}
use malda_lending_fuzz.Contracts.OutHere.{
  all_included, verify_proof, out_here_one, out_here_all, out_here,
}
use malda_lending_fuzz.Contracts.OutHere.Credited.{as_user, out_here_one_iff}

-- The entry that the contracts read of what the guest writes for a query of Linea.
abbrev pub written_entry : Query → (amount_in amount_out : U256) → Entry
written_entry q amount_in amount_out = record {
  sender = q.user;
  market = q.market;
  acc_amount_in = amount_in;
  acc_amount_out = amount_out;
  chain_id = linea_chain_id;
  dst_chain_id = q.target_chain_id % 2 ^ 32;
  l1_inclusion = true;
}

pub decoded-entry_bytes :
    (q : Query) (amount_in amount_out : U256)
    → q.user < 2 ^ 160
    → q.market < 2 ^ 160
    → amount_in < 2 ^ 256
    → amount_out < 2 ^ 256
    → decoded (entry_bytes linea_chain_id true q amount_in amount_out)
      ≡ ok (written_entry q amount_in amount_out)
unfolding decoded
decoded-entry_bytes q amount_in amount_out user market fits_in fits_out =
    rw
      (decode_journal-entry_bytes linea_chain_id true q amount_in amount_out user market fits_in
        fits_out)
      refl

module _ (D : Deployment) where
  -- The state after the payment.
  abbrev pub after_payment : Gateway D → Query → U256 → D.Token → Gateway D
  after_payment g q amount token = record g {
    acc_amount_out = update g.acc_amount_out q.user (g.acc_amount_out q.user + amount);
    token = token;
    log = extracted q.user amount ∷ g.log;
  }

  pub entry_paid :
      (c : Context) (g : Gateway D) (q : Query) (amount_in amount_out amount : U256)
      (token : D.Token)
      → decoded (entry_bytes linea_chain_id true q amount_in amount_out)
        ≡ ok (written_entry q amount_in amount_out)
      → amount_out < 2 ^ 256
      → q.market ≡ D.this
      → q.target_chain_id % 2 ^ 32 ≡ D.chain_id % 2 ^ 32
      → c.sender ≡ q.user
      → 0 < amount
      → g.acc_amount_out q.user + amount ≤ amount_out
      → amount ≤ D.balance_of g.token D.this
      → D.safe_transfer g.token D.this q.user amount ≡ ok token
      → out_here_one D c g (entry_bytes linea_chain_id true q amount_in amount_out) amount
        ≡ ok (after_payment g q amount token)
  entry_paid c g q amount_in amount_out amount token read fits market target sender positive within
        cash moved =
      (out_here_one_iff D c g (after_payment g q amount token)
          (entry_bytes linea_chain_id true q amount_in amount_out) amount).1
        (record {
          entry = written_entry q amount_in amount_out;
          read = read;
          allowed = as_user sender;
          market = market;
          host = refl;
          destination = target;
          positive = positive;
          within = within;
          cash = cash;
          small = omega arith;
          token = token;
          moved = moved;
          after = refl;
        })

  -- GW08 of the README, for an entry that the coprocessor has written: where the entry is of Linea, about
  -- this market and this chain, with the inclusion flag, and the verifier accepts the journal data of
  -- this entry alone, the user of the entry, who is not blacklisted and no forwarder, can withdraw any
  -- positive amount within what the entry credits beyond what has been paid before, as long as
  -- payments are not paused, the gateway holds the amount and the token moves it; the amount is paid
  -- to the user and added to what has been paid, and nothing else changes but the log.
  pub out_here_pays_entry :
      (c : Context) (g : Gateway D) (q : Query) (amount_in amount_out amount : U256)
      (journal_data seal : Bytes) (token : D.Token)
      → q.user < 2 ^ 160
      → D.this < 2 ^ 160
      → amount_in < 2 ^ 256
      → amount_out < 2 ^ 256
      → q.market ≡ D.this
      → q.target_chain_id % 2 ^ 32 ≡ D.chain_id % 2 ^ 32
      → c.sender ≡ q.user
      → c.is_blacklisted q.user ≡ false
      → c.is_allowed_for q.user proof_forwarder ≡ false
      → c.is_allowed_for q.user proof_batch_forwarder ≡ false
      → g.is_paused amount_out_here ≡ false
      → 0 < length journal_data
      → c.abi_decode journal_data ≡ ok (entry_bytes linea_chain_id true q amount_in amount_out ∷ [])
      → c.verify_input g.verifier journal_data seal ≡ true
      → 0 < amount
      → g.acc_amount_out q.user + amount ≤ amount_out
      → amount ≤ D.balance_of g.token D.this
      → D.safe_transfer g.token D.this q.user amount ≡ ok token
      → out_here D c g journal_data seal (amount ∷ []) q.user ≡ ok (after_payment g q amount token)
  unfolding out_here out_here_all verify_proof all_included not_paused if_not_blacklisted
  out_here_pays_entry c g q amount_in amount_out amount journal_data seal token user this fits_in
        fits_out market target sender welcome no_role no_batch_role running given read accepted
        positive within cash moved =
      let is_user =
        decoded-entry_bytes q amount_in amount_out user (rw market this) fits_in fits_out in
      let paid =
        entry_paid c g q amount_in amount_out amount token is_user fits_out market target sender
          positive within cash moved in
      let sender_welcome : c.is_blacklisted c.sender ≡ false = rw sender welcome in
      let no_forwarder : c.is_allowed_for c.sender proof_forwarder ≡ false = rw sender no_role in
      let no_batch : c.is_allowed_for c.sender proof_batch_forwarder ≡ false =
        rw sender no_batch_role in
      let some_data : ltb 0 (length journal_data) ≡ true = ground arith in
      rw
        (
          running, sender_welcome, welcome, no_batch, some_data, read, no_forwarder, is_user,
          accepted, paid,
        )
        refl
