-- ===== src/Contracts/Gateway.antt =====
-- contracts/src/mToken/extension/mTokenGateway.sol: the contract on an extension chain that takes
-- deposits for the host chain and pays what a proof of the host chain's state credits.
use malda_lending_fuzz.Prelude.{
  ℕ, ◌+◌, Bool, true, false, not, ◌||◌, ltb, leb, ◌==◌, if◌then◌else◌, List, [], ◌∷◌, Result, ok,
  ◌>>=◌, ◌>>◌,
}
use malda_lending_fuzz.Bytes.{Address, U256}
use malda_lending_fuzz.Contracts.{
  Error, paused, user_not_whitelisted, user_blacklisted, caller_not_allowed, not_rebalancer,
  address_not_valid, amount_not_valid, not_enough_gas_fee, not_owner, require, checked_add, update,
  rebalancer, guardian_pause, sequencer, Deployment, Context, reverted, call_reverted,
}

pub data OperationType : Type 0 where
  amount_in amount_in_here amount_out amount_out_here seize transfer : OperationType
  mint borrow repay redeem liquidate rebalancing : OperationType

-- The place of an operation in the enumeration.
operation_index : OperationType → ℕ
operation_index amount_in = 0
operation_index amount_in_here = 1
operation_index amount_out = 2
operation_index amount_out_here = 3
operation_index seize = 4
operation_index transfer = 5
operation_index mint = 6
operation_index borrow = 7
operation_index repay = 8
operation_index redeem = 9
operation_index liquidate = 10
operation_index rebalancing = 11

-- What is logged of the flow of tokens: the events of deposits and payments, of which the fields that
-- repeat the state are left out, and the token's events of an extraction for rebalancing and of what
-- the gateway is sent without a call of it.
pub data Event : Type 0 where
  supplied : (from receiver : Address) → U256 → Event
  extracted : (sender : Address) → U256 → Event
  rebalanced : (to : Address) → U256 → Event
  donated : U256 → Event

module _ (D : Deployment) where
  -- The storage, the native balance, the state of the underlying token, and the log, newest first.
  pub record Gateway : Type 0 where
    pub owner : Address
    pub verifier : Address
    pub is_paused : OperationType → Bool
    pub acc_amount_in : Address → U256
    pub acc_amount_out : Address → U256
    pub allowed_callers : Address → Address → Bool
    pub user_whitelisted : Address → Bool
    pub whitelist_enabled : Bool
    pub gas_fee : U256
    pub native_balance : U256
    pub token : D.Token
    pub log : List Event

  unfoldable pub only_owner : Context → Gateway → Result Error (Unit {0})
  only_owner c g = require (c.sender == g.owner) not_owner

  unfoldable pub not_paused : Gateway → OperationType → Result Error (Unit {0})
  not_paused g operation = require (not (g.is_paused operation)) paused

  unfoldable pub only_allowed_user : Gateway → Address → Result Error (Unit {0})
  only_allowed_user g user =
      if g.whitelist_enabled then require (g.user_whitelisted user) user_not_whitelisted else ok tt

  unfoldable pub if_not_blacklisted : Context → Address → Result Error (Unit {0})
  if_not_blacklisted c user = require (not (c.is_blacklisted user)) user_blacklisted

  -- `getProofData`, which the coprocessor's multicall reads; the chain is ignored.
  unfoldable pub get_proof_data : Gateway → (user : Address) → (chain_id : ℕ) → U256 × U256
  get_proof_data g user _ = (g.acc_amount_in user, g.acc_amount_out user)

  unfoldable pub set_whitelisted_user :
      Context → Gateway → (user : Address) → Bool → Result Error Gateway
  unfolding only_owner
  set_whitelisted_user c g user state = do
    only_owner c g
    ok (record g { user_whitelisted = update g.user_whitelisted user state })

  unfoldable pub enable_whitelist : Context → Gateway → Result Error Gateway
  unfolding only_owner
  enable_whitelist c g = do only_owner c g; ok (record g { whitelist_enabled = true })

  unfoldable pub disable_whitelist : Context → Gateway → Result Error Gateway
  unfolding only_owner
  disable_whitelist c g = do only_owner c g; ok (record g { whitelist_enabled = false })

  unfoldable pub set_paused : Context → Gateway → OperationType → Bool → Result Error Gateway
  unfolding operation_index
  set_paused c g operation state = do
    require
        (c.sender == g.owner || (if state then c.is_allowed_for c.sender guardian_pause else false))
        caller_not_allowed
    ok (record g {
      is_paused =
          λ o. if operation_index operation == operation_index o then state else g.is_paused o;
    })

  unfoldable pub extract_for_rebalancing : Context → Gateway → U256 → Result Error Gateway
  unfolding not_paused
  extract_for_rebalancing c g amount = do
    not_paused g rebalancing
    require (c.is_allowed_for c.sender rebalancer) not_rebalancer
    token ← reverted (D.safe_transfer g.token D.this c.sender amount)
    ok (record g { token = token; log = rebalanced c.sender amount ∷ g.log })

  unfoldable pub set_gas_fee : Context → Gateway → U256 → Result Error Gateway
  unfolding only_owner
  set_gas_fee c g amount = do only_owner c g; ok (record g { gas_fee = amount })

  unfoldable pub withdraw_gas_fees : Context → Gateway → (receiver : Address) → Result Error Gateway
  withdraw_gas_fees c g receiver = do
    require (c.sender == g.owner || c.is_allowed_for c.sender sequencer) caller_not_allowed
    require (c.accepts receiver) call_reverted
    ok (record g { native_balance = 0 })

  unfoldable pub update_zk_verifier : Context → Gateway → Address → Result Error Gateway
  unfolding only_owner
  update_zk_verifier c g zk_verifier = do
    only_owner c g
    require (not (zk_verifier == 0)) address_not_valid
    ok (record g { verifier = zk_verifier })

  unfoldable pub update_allowed_caller_status :
      Context → Gateway → (caller : Address) → Bool → Result Error Gateway
  update_allowed_caller_status c g caller status = ok (record g {
    allowed_callers =
        update g.allowed_callers c.sender (update (g.allowed_callers c.sender) caller status);
  })

  unfoldable pub supply_on_host :
      Context → Gateway → U256 → (receiver : Address) → Result Error Gateway
  unfolding not_paused only_allowed_user if_not_blacklisted checked_add
  supply_on_host c g amount receiver = do
    not_paused g amount_in
    only_allowed_user g c.sender
    if_not_blacklisted c c.sender
    if_not_blacklisted c receiver
    require (ltb 0 amount) amount_not_valid
    require (leb g.gas_fee c.value) not_enough_gas_fee
    token ← reverted (D.safe_transfer_from g.token D.this c.sender D.this amount)
    total ← checked_add (g.acc_amount_in receiver) amount
    ok (record g {
      acc_amount_in = update g.acc_amount_in receiver total;
      native_balance = g.native_balance + c.value;
      token = token;
      log = supplied c.sender receiver amount ∷ g.log;
    })

  -- `initialize`. Which owners OpenZeppelin's `__Ownable_init` takes is a parameter; the token is in some
  -- state, and the log of its transfers starts here.
  unfoldable pub initialize :
      (takes_owner : Address → Bool)
      → (owner underlying roles blacklister zk_verifier : Address) → D.Token
      → Result Error Gateway
  initialize takes_owner owner underlying roles blacklister zk_verifier token = do
    require (takes_owner owner) not_owner
    require (not (roles == 0)) address_not_valid
    require (not (zk_verifier == 0)) address_not_valid
    require (not (blacklister == 0)) address_not_valid
    require (not (underlying == 0)) address_not_valid
    ok (record {
      owner = owner;
      verifier = zk_verifier;
      is_paused = λ _. false;
      acc_amount_in = λ _. 0;
      acc_amount_out = λ _. 0;
      allowed_callers = λ _ _. false;
      user_whitelisted = λ _. false;
      whitelist_enabled = false;
      gas_fee = 0;
      native_balance = 0;
      token = token;
      log = [];
    })
