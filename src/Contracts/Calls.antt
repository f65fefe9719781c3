-- ===== src/Contracts/Calls.antt =====
-- The calls of the gateway, and what a sequence of them reaches.
pub mod Preserved
pub mod Accounts
pub mod Credit
pub mod Verified
pub mod Withdrawal
pub mod Owner
use malda_lending_fuzz.Prelude.{◌-◌, Bool, List, [], ◌∷◌, Result, ok, ◌≡◌, ◌>>=◌, ◌>>◌}
use malda_lending_fuzz.Bytes.{Bytes, Address, U256}
use malda_lending_fuzz.Contracts.{Error, Deployment, Context}
use malda_lending_fuzz.Contracts.Gateway.{
  only_owner, Gateway, donated, OperationType, set_whitelisted_user, enable_whitelist,
  disable_whitelist, set_paused, extract_for_rebalancing, set_gas_fee, withdraw_gas_fees,
  update_zk_verifier, update_allowed_caller_status, supply_on_host,
}
use malda_lending_fuzz.Contracts.OutHere.{out_here}

-- The external functions that change the state.
pub data Call : Type 0 where
  set_whitelisted_user_call : Address → Bool → Call
  enable_whitelist_call disable_whitelist_call : Call
  set_paused_call : OperationType → Bool → Call
  extract_for_rebalancing_call set_gas_fee_call : U256 → Call
  withdraw_gas_fees_call update_zk_verifier_call : Address → Call
  update_allowed_caller_status_call : Address → Bool → Call
  supply_on_host_call : U256 → (receiver : Address) → Call
  out_here_call : (journal_data seal : Bytes) → List U256 → (receiver : Address) → Call

abbrev pub All : {A : Type 0} → (A → Type 0) → List A → Type 0
All P [] = Unit
All P (x ∷ xs) = P x × All P xs

module _ (D : Deployment) where
  unfoldable pub dispatch : Context → Gateway D → Call → Result Error (Gateway D)
  dispatch c g (set_whitelisted_user_call user state) = set_whitelisted_user D c g user state
  dispatch c g enable_whitelist_call = enable_whitelist D c g
  dispatch c g disable_whitelist_call = disable_whitelist D c g
  dispatch c g (set_paused_call operation state) = set_paused D c g operation state
  dispatch c g (extract_for_rebalancing_call amount) = extract_for_rebalancing D c g amount
  dispatch c g (set_gas_fee_call amount) = set_gas_fee D c g amount
  dispatch c g (withdraw_gas_fees_call receiver) = withdraw_gas_fees D c g receiver
  dispatch c g (update_zk_verifier_call verifier) = update_zk_verifier D c g verifier
  dispatch c g (update_allowed_caller_status_call caller status) =
      update_allowed_caller_status D c g caller status
  dispatch c g (supply_on_host_call amount receiver) = supply_on_host D c g amount receiver
  dispatch c g (out_here_call journal_data seal amounts receiver) =
      out_here D c g journal_data seal amounts receiver

  -- A property of every journal that a call of `outHere` presents; the other calls present none.
  abbrev pub Presents : (Bytes → Type 0) → Context → Call → Type 0
  Presents IsGenuine c (out_here_call journal_data seal amounts receiver) =
      (journals : List Bytes) → c.abi_decode journal_data ≡ ok journals → All IsGenuine journals
  Presents IsGenuine c _ = Unit {0}

  -- The state after the token's state has changed by calls that do not come from the gateway; what
  -- this adds to the gateway's balance is logged.
  abbrev pub moved_by_others : Gateway D → D.Token → Gateway D
  moved_by_others g token = record g {
    token = token;
    log = donated (D.balance_of token D.this - D.balance_of g.token D.this) ∷ g.log;
  }

  -- The states that successful calls reach from a state, in any order and by any senders, where each
  -- journal that is presented is genuine. Between calls OpenZeppelin's contract can change the owner,
  -- and anyone can move the token, to the gateway as well.
  pub data Reach (IsGenuine : Bytes → Type 0) (start : Gateway D) : Gateway D → Type 0 where
    here : Reach IsGenuine start start
    next :
        {g g' : Gateway D}
        → (c : Context) → (call : Call) → Presents IsGenuine c call
        → Reach IsGenuine start g
        → dispatch c g call ≡ ok g'
        → Reach IsGenuine start g'
    owned :
        {g : Gateway D}
        → (owner : Address) → Reach IsGenuine start g
        → Reach IsGenuine start (record g { owner = owner })
    others :
        {g : Gateway D}
        → (token : D.Token) → D.Elsewhere g.token token
        → Reach IsGenuine start g
        → Reach IsGenuine start (moved_by_others g token)
