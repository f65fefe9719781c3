-- ===== src/Contracts/Calls/Credit.antt =====
-- What the gateway pays a user against what the host chain credits the user with.
use malda_lending_fuzz.Prelude.{◌+◌, ◌^◌, ◌%◌, ◌≤◌, ◌≡◌, ◌≢◌, arith, ok, ok_unique}
use malda_lending_fuzz.Bytes.{Bytes, Address, U256}
use malda_lending_fuzz.Constants.{linea_chain_id}
use malda_lending_fuzz.Journal.{Entry}
use malda_lending_fuzz.Contracts.{Deployment, Context, decoded}
use malda_lending_fuzz.Contracts.Gateway.{Gateway}
use malda_lending_fuzz.Contracts.OutHere.{out_here_one}
use malda_lending_fuzz.Contracts.OutHere.Credited.{out_here_one_iff}
use malda_lending_fuzz.Contracts.Calls.{Reach}
use malda_lending_fuzz.Contracts.Calls.Preserved.{IsKept, Reach-kept}

module _ (D : Deployment) where
  -- If a journal is an entry of the host chain about this market and this chain, it credits its sender
  -- with no more than the host chain does.
  abbrev pub IsCovered : (credit : Address → U256) → Bytes → Type 0
  IsCovered credit journal =
      (e : Entry)
      → decoded journal ≡ ok e
      → e.market ≡ D.this
      → e.chain_id ≡ linea_chain_id
      → e.dst_chain_id ≡ D.chain_id % 2 ^ 32
      → e.acc_amount_out ≤ credit e.sender

  IsWithin : (credit : Address → U256) → Gateway D → Type 0
  IsWithin credit g = (user : Address) → g.acc_amount_out user ≤ credit user

  IsWithin-kept : (credit : Address → U256) → IsKept D (IsCovered credit) (IsWithin credit)
  unfolding IsWithin
  IsWithin-kept credit = record {
    same = λ g g' (_, acc_out, _, _) b user. rw acc_out (b user);
    deposited = λ g g' d b user. rw d.acc_out (b user);
    extraction = λ g g' d b user. rw d.acc_out (b user);
    donation = λ g token _ b. b;
    credited = λ c g g' journal amount genuine d b user.
        rw d.after
          (ground (arith, b user, d.within, genuine d.entry d.read d.market d.host d.destination));
  }

  -- GW05 of the README: where each journal that is presented credits its sender with no more than the
  -- host chain does, no state that successful calls reach, in any order and with any journals repeated,
  -- has paid a user more than that, if the first state has not.
  pub paid_within_credit :
      (credit : Address → U256) (start g : Gateway D)
      → ((user : Address) → start.acc_amount_out user ≤ credit user)
      → Reach D (IsCovered credit) start g
      → (user : Address) → g.acc_amount_out user ≤ credit user
  unfolding IsWithin
  paid_within_credit credit start g before reached =
      Reach-kept D (IsCovered credit) (IsWithin credit) (IsWithin-kept credit) start g reached
        before

  HasPaid : Address → U256 → Gateway D → Type 0
  HasPaid user amount g = amount ≤ g.acc_amount_out user

  HasPaid-kept :
      (IsGenuine : Bytes → Type 0) (user : Address) (amount : U256)
      → IsKept D IsGenuine (HasPaid user amount)
  unfolding HasPaid
  HasPaid-kept IsGenuine user amount = record {
    same = λ g g' (_, acc_out, _, _) b. rw acc_out b;
    deposited = λ g g' d b. rw d.acc_out b;
    extraction = λ g g' d b. rw d.acc_out b;
    donation = λ g token _ b. b;
    credited = λ c g g' journal paid _ d b. rw d.after (ground arith);
  }

  -- GW06 of the README: once a journal has been paid to the whole amount that it credits, no call pays
  -- any amount on it in any state reached afterwards, whoever makes the call.
  pub spent_journal_refused :
      (IsGenuine : Bytes → Type 0) (c c' : Context) (g spent later after : Gateway D)
      (journal : Bytes) (e : Entry) (amount amount' : U256)
      → decoded journal ≡ ok e
      → g.acc_amount_out e.sender + amount ≡ e.acc_amount_out
      → out_here_one D c g journal amount ≡ ok spent
      → Reach D IsGenuine spent later
      → out_here_one D c' later journal amount' ≢ ok after
  unfolding HasPaid
  spent_journal_refused IsGenuine c c' g spent later after journal e amount amount' read whole paid
        reached again =
      let first = (out_here_one_iff D c g spent journal amount).0 paid in
      let second = (out_here_one_iff D c' later after journal amount').0 again in
      let same : first.entry ≡ e = ok_unique first.read read in
      let same' : second.entry ≡ e = ok_unique second.read read in
      let paid_all : e.acc_amount_out ≤ spent.acc_amount_out e.sender =
        rw (first.after, same) (ground arith) in
      let still =
        Reach-kept D IsGenuine (HasPaid e.sender e.acc_amount_out)
          (HasPaid-kept IsGenuine e.sender e.acc_amount_out) spent later reached paid_all in
      let beyond : later.acc_amount_out e.sender + amount' ≤ e.acc_amount_out =
        rw same' at second.within in
      omega (arith, second.positive)
