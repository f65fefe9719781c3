-- ===== src/Tests/Gateway.antt =====
-- Examples of the gateway: one user, to whom an entry of the guest credits 500, and a token of which
-- the gateway's balance is kept.
use malda_lending_fuzz.Prelude.{
  ℕ, ◌+◌, ◌-◌, ◌≡◌, ◌≢◌, ◌↔◌, refl, arith, true, false, leb, ◌==◌, if◌then◌else◌, List, [], ◌∷◌,
  ◌<◌, ◌≤◌, length, Result, ok, err, ok_unique,
}
use malda_lending_fuzz.Bytes.{Bytes, Address, U256, to_be_bytes}
use malda_lending_fuzz.Constants.{linea_chain_id, base_chain_id}
use malda_lending_fuzz.Journal.RoundTrip.{entry_bytes}
use malda_lending_fuzz.Contracts.{Deployment, Context, decoded, proof_forwarder}
use malda_lending_fuzz.Contracts.Gateway.{Gateway, initialize}
use malda_lending_fuzz.Contracts.OutHere.{out_here_one, out_here}
use malda_lending_fuzz.Contracts.Calls.{
  All, Reach, here, next, others, moved_by_others, out_here_call, dispatch,
}
use malda_lending_fuzz.Contracts.OutHere.Credited.{Credited, out_here_one_iff}
use malda_lending_fuzz.Contracts.Calls.Accounts.{IsErc20, IsBalanced, Reach-IsBalanced}
use malda_lending_fuzz.Contracts.Calls.Credit.{IsCovered, paid_within_credit, spent_journal_refused}
use malda_lending_fuzz.Contracts.Calls.Verified.{Included, out_here_verified}
use malda_lending_fuzz.Contracts.Calls.Withdrawal.{
  written_entry, decoded-entry_bytes, after_payment, entry_paid, out_here_pays_entry,
}
use malda_lending_fuzz.Tests.Inputs.{query}

abbrev move_out : ℕ → (to : Address) → U256 → Result (Unit {0}) ℕ
move_out held to amount =
    if leb amount held then ok (if to == 6 then held else held - amount) else err tt

abbrev deployment : Deployment
deployment = record {
  this = 6;
  chain_id = base_chain_id;
  Token = ℕ;
  balance_of = λ held _. held;
  safe_transfer = λ held _ to amount. move_out held to amount;
  safe_transfer_from = λ held _ from _ amount. ok (held + (if from == 6 then 0 else amount));
  Elsewhere = λ held held'. held ≤ held';
}

deployment-IsErc20 : IsErc20 deployment
deployment-IsErc20 = record {
  sent = λ t t' to amount h. ground arith;
  received = λ t t' from amount h. ground arith;
  elsewhere = λ t t' moves. moves;
}

abbrev journal : Bytes
journal = entry_bytes linea_chain_id true query 1000 500

-- The user calls, and the data hold the one journal.
abbrev context : Context
context = record {
  sender = 5;
  value = 0;
  is_allowed_for = λ _ _. false;
  is_blacklisted = λ _. false;
  verify_input = λ _ _ _. true;
  accepts = λ _. true;
  abi_decode = λ data'. ok (data' ∷ []);
}

abbrev start : Gateway deployment
start = record {
  owner = 1;
  verifier = 5;
  is_paused = λ _. false;
  acc_amount_in = λ _. 0;
  acc_amount_out = λ _. 0;
  allowed_callers = λ _ _. false;
  user_whitelisted = λ _. false;
  whitelist_enabled = false;
  gas_fee = 0;
  native_balance = 0;
  token = 100000;
  log = [];
}

initialized : initialize deployment (λ _. true) 1 2 3 4 5 100000 ≡ ok start
unfolding initialize
initialized = refl

some_data : 0 < length journal
unfolding to_be_bytes
some_data = omega arith

-- A withdrawal of 200 of the 500.
abbrev withdrawn : Gateway deployment
withdrawn = after_payment deployment start query 200 99800

out_here_pays_entry_example :
    out_here deployment context start journal [] (200 ∷ []) 5 ≡ ok withdrawn
out_here_pays_entry_example =
    out_here_pays_entry deployment context start query 1000 500 200 journal [] 99800 (omega arith)
      (omega arith) (omega arith) (omega arith) refl refl refl refl refl refl refl some_data refl
      refl (omega arith) (omega arith) (omega arith) refl

-- What the journal is read as.
read : decoded journal ≡ ok (written_entry query 1000 500)
read = decoded-entry_bytes query 1000 500 (omega arith) (omega arith) (omega arith) (omega arith)

covered : IsCovered deployment (λ _. 500) journal
covered e other market host destination =
    let same : written_entry query 1000 500 ≡ e = ok_unique read other in rw (← same) (omega arith)

paid : out_here deployment context start journal [] (200 ∷ []) 5 ≡ ok withdrawn
paid =
    out_here_pays_entry deployment context start query 1000 500 200 journal [] 99800 (omega arith)
      (omega arith) (omega arith) (omega arith) refl refl refl refl refl refl refl some_data refl
      refl (omega arith) (omega arith) (omega arith) refl

reached : Reach deployment (IsCovered deployment (λ _. 500)) start withdrawn
unfolding dispatch
reached =
    next context (out_here_call journal [] (200 ∷ []) 5)
      (λ journals given. rw (← ok_unique refl given) (covered, tt)) here paid

-- Somebody sends the gateway 7 afterwards.
Reach-IsBalanced_example : IsBalanced deployment 100000 (moved_by_others deployment withdrawn 99807)
Reach-IsBalanced_example =
    Reach-IsBalanced deployment (IsCovered deployment (λ _. 500)) (λ _. true) 1 2 3 4 5 100000 start
      (moved_by_others deployment withdrawn 99807) deployment-IsErc20 initialized
      (others 99807 (omega arith) reached)

paid_within_credit_example : withdrawn.acc_amount_out 5 ≤ 500
paid_within_credit_example =
    paid_within_credit deployment (λ _. 500) start withdrawn (λ user. omega arith) reached 5

abbrev spent : Gateway deployment
spent = after_payment deployment start query 500 99500

paid_all : out_here_one deployment context start journal 500 ≡ ok spent
paid_all =
    entry_paid deployment context start query 1000 500 500 99500 read (omega arith) refl refl refl
      (omega arith) (omega arith) (omega arith) refl

spent_journal_refused_example : out_here_one deployment context spent journal 1 ≢ ok spent
spent_journal_refused_example =
    spent_journal_refused deployment (IsCovered deployment (λ _. 500)) context context start spent
      spent spent journal (written_entry query 1000 500) 500 1 read refl paid_all here

out_here_verified_example :
    (context.verify_input 5 journal [] ≡ true)
    × (journals : List Bytes) × (context.abi_decode journal ≡ ok journals)
    × (context.is_allowed_for 5 proof_forwarder ≡ false → All Included journals)
out_here_verified_example =
    out_here_verified deployment context start withdrawn journal [] (200 ∷ []) 5 refl paid

out_here_one_iff_example :
    (out_here_one deployment context start journal 500 ≡ ok spent)
    ↔ Credited deployment context start journal 500 spent
out_here_one_iff_example = out_here_one_iff deployment context start spent journal 500
