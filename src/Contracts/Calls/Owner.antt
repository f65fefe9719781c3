-- ===== src/Contracts/Calls/Owner.antt =====
-- Who can call what.
use malda_lending_fuzz.Prelude.{◌≡◌, true, false, ◌||◌, ◌==◌, ==_iff, Result, ok, ◌>>◌, arith}
use malda_lending_fuzz.Contracts.{Error, Deployment, Context, require_ok}
use malda_lending_fuzz.Contracts.Gateway.{
  Gateway, only_owner, set_whitelisted_user, enable_whitelist, disable_whitelist, set_paused,
  set_gas_fee, update_zk_verifier,
}
use malda_lending_fuzz.Contracts.Calls.{
  Call, set_whitelisted_user_call, enable_whitelist_call, disable_whitelist_call, set_paused_call,
  extract_for_rebalancing_call, set_gas_fee_call, withdraw_gas_fees_call, update_zk_verifier_call,
  update_allowed_caller_status_call, supply_on_host_call, out_here_call, dispatch,
}

-- The calls that only the owner may make.
abbrev pub IsAdministrative : Call → Type 0
IsAdministrative (set_whitelisted_user_call _ _) = Unit
IsAdministrative enable_whitelist_call = Unit
IsAdministrative disable_whitelist_call = Unit
IsAdministrative (set_paused_call _ state) = state ≡ false
IsAdministrative (set_gas_fee_call _) = Unit
IsAdministrative (update_zk_verifier_call _) = Unit
IsAdministrative _ = ⊥

module _ (D : Deployment) where
  by_owner :
      (c : Context) (g g' : Gateway D) (m : Result Error (Gateway D))
      → (only_owner D c g >> m) ≡ ok g'
      → c.sender ≡ g.owner
  unfolding only_owner
  by_owner c g g' m h = require_ok (c.sender == g.owner) _ m h λ owner _. (==_iff _ _).0 owner

  -- GW03 of the README: the whitelist, the gas fee and the verifier change, and an operation is unpaused,
  -- only in a call by the owner.
  pub administrative_by_owner :
      (c : Context) (g g' : Gateway D) (call : Call)
      → IsAdministrative call
      → dispatch D c g call ≡ ok g'
      → c.sender ≡ g.owner
  unfolding dispatch set_whitelisted_user enable_whitelist disable_whitelist set_paused set_gas_fee
      update_zk_verifier
  administrative_by_owner c g g' (set_whitelisted_user_call _ _) is h = by_owner c g g' _ h
  administrative_by_owner c g g' enable_whitelist_call is h = by_owner c g g' _ h
  administrative_by_owner c g g' disable_whitelist_call is h = by_owner c g g' _ h
  administrative_by_owner c g g' (set_paused_call operation true) is h = absurd (cc)
  administrative_by_owner c g g' (set_paused_call operation false) is h =
      require_ok (c.sender == g.owner || false) _ _ h λ owner _. ground arith
  administrative_by_owner c g g' (set_gas_fee_call _) is h = by_owner c g g' _ h
  administrative_by_owner c g g' (update_zk_verifier_call _) is h = by_owner c g g' _ h
  administrative_by_owner c g g' (extract_for_rebalancing_call _) is h = elim is [ ]
  administrative_by_owner c g g' (withdraw_gas_fees_call _) is h = elim is [ ]
  administrative_by_owner c g g' (update_allowed_caller_status_call _ _) is h = elim is [ ]
  administrative_by_owner c g g' (supply_on_host_call _ _) is h = elim is [ ]
  administrative_by_owner c g g' (out_here_call _ _ _ _) is h = elim is [ ]
