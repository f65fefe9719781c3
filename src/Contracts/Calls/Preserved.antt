-- ===== src/Contracts/Calls/Preserved.antt =====
-- What every step keeps, by the five effects that a step can have on the accounts.
use malda_lending_fuzz.Prelude.{
  ◌+◌, ◌≡◌, refl, ◌||◌, ltb, leb, ◌==◌, if◌then◌else◌, List, [], ◌∷◌, length, Result, ok, ◌>>◌,
  bind_ok,
}
use malda_lending_fuzz.Bytes.{Bytes, Address, U256}
use malda_lending_fuzz.Contracts.{
  Error, Deployment, Context, update, checked_add, require_ok, reverted_ok, rebalancer, sequencer,
  proof_batch_forwarder,
}
use malda_lending_fuzz.Contracts.Gateway.{
  Gateway, supplied, rebalanced, only_owner, not_paused, only_allowed_user, if_not_blacklisted,
  rebalancing, amount_in, amount_out_here, set_whitelisted_user, enable_whitelist,
  disable_whitelist, set_paused, extract_for_rebalancing, set_gas_fee, withdraw_gas_fees,
  update_zk_verifier, update_allowed_caller_status, supply_on_host,
}
use malda_lending_fuzz.Contracts.OutHere.{out_here_one, out_here_all, verify_proof, out_here}
use malda_lending_fuzz.Contracts.OutHere.Credited.{Credited, out_here_one_iff, checked_add-ok}
use malda_lending_fuzz.Contracts.Calls.{
  Call, set_whitelisted_user_call, enable_whitelist_call, disable_whitelist_call, set_paused_call,
  extract_for_rebalancing_call, set_gas_fee_call, withdraw_gas_fees_call, update_zk_verifier_call,
  update_allowed_caller_status_call, supply_on_host_call, out_here_call, dispatch, All, Presents,
  Reach, here, next, owned, others, moved_by_others,
}

module _ (D : Deployment) where
  -- The accounts, the token and the log are the same.
  abbrev pub SameAccounts : Gateway D → Gateway D → Type 0
  SameAccounts g g' =
      (g'.acc_amount_in ≡ g.acc_amount_in)
      × (g'.acc_amount_out ≡ g.acc_amount_out)
      × (g'.token ≡ g.token)
      × (g'.log ≡ g.log)

  -- A deposit.
  pub record Deposited (g g' : Gateway D) : Type 0 where
    pub from : Address
    pub receiver : Address
    pub amount : U256
    pub moved : D.safe_transfer_from g.token D.this from D.this amount ≡ ok g'.token
    pub acc_in :
        g'.acc_amount_in ≡ update g.acc_amount_in receiver (g.acc_amount_in receiver + amount)
    pub acc_out : g'.acc_amount_out ≡ g.acc_amount_out
    pub log : g'.log ≡ supplied from receiver amount ∷ g.log

  -- An extraction by the rebalancer.
  pub record Extraction (g g' : Gateway D) : Type 0 where
    pub to : Address
    pub amount : U256
    pub moved : D.safe_transfer g.token D.this to amount ≡ ok g'.token
    pub acc_in : g'.acc_amount_in ≡ g.acc_amount_in
    pub acc_out : g'.acc_amount_out ≡ g.acc_amount_out
    pub log : g'.log ≡ rebalanced to amount ∷ g.log

  -- A property of states that each of the five effects keeps, a payment for a genuine journal.
  pub record IsKept (IsGenuine : Bytes → Type 0) (P : Gateway D → Type 0) : Type 0 where
    pub same : (g g' : Gateway D) → SameAccounts g g' → P g → P g'
    pub deposited : (g g' : Gateway D) → Deposited g g' → P g → P g'
    pub extraction : (g g' : Gateway D) → Extraction g g' → P g → P g'
    pub donation :
        (g : Gateway D) (token : D.Token)
        → D.Elsewhere g.token token
        → P g
        → P (moved_by_others D g token)
    pub credited :
        (c : Context) (g g' : Gateway D) (journal : Bytes) (amount : U256)
        → IsGenuine journal
        → Credited D c g journal amount g'
        → P g
        → P g'

  supply_on_host-Deposited :
      (c : Context) (g g' : Gateway D) (amount : U256) (receiver : Address)
      → supply_on_host D c g amount receiver ≡ ok g'
      → Deposited g g'
  unfolding supply_on_host
  supply_on_host-Deposited c g g' amount receiver h =
      bind_ok (not_paused D g amount_in) _ h λ _ _ h₁.
        bind_ok (only_allowed_user D g c.sender) _ h₁ λ _ _ h₂.
          bind_ok (if_not_blacklisted D c c.sender) _ h₂ λ _ _ h₃.
            bind_ok (if_not_blacklisted D c receiver) _ h₃ λ _ _ h₄.
              require_ok (ltb 0 amount) _ _ h₄ λ _ h₅.
                require_ok (leb g.gas_fee c.value) _ _ h₅ λ _ h₆.
                  reverted_ok (D.safe_transfer_from g.token D.this c.sender D.this amount) _ h₆
                    λ token moved h₇.
                      bind_ok (checked_add (g.acc_amount_in receiver) amount) _ h₇
                        λ total added done. record {
                          from = c.sender;
                          receiver = receiver;
                          amount = amount;
                          moved = cc;
                          acc_in = rw (← (checked_add-ok _ _ _ added).1) (cc);
                          acc_out = cc;
                          log = cc;
                        }

  extract_for_rebalancing-Extraction :
      (c : Context) (g g' : Gateway D) (amount : U256)
      → extract_for_rebalancing D c g amount ≡ ok g'
      → Extraction g g'
  unfolding extract_for_rebalancing
  extract_for_rebalancing-Extraction c g g' amount h =
      bind_ok (not_paused D g rebalancing) _ h λ _ _ h₁.
        require_ok (c.is_allowed_for c.sender rebalancer) _ _ h₁ λ _ h₂.
          reverted_ok (D.safe_transfer g.token D.this c.sender amount) _ h₂ λ token moved done.
            record {
              to = c.sender;
              amount = amount;
              moved = cc;
              acc_in = cc;
              acc_out = cc;
              log = cc;
            }

  -- A call of which the state that follows is given by its last step.
  settles :
      (g g' settled : Gateway D) (checks : Result Error (Unit {0}))
      → (checks >> ok settled) ≡ ok g'
      → SameAccounts g settled
      → SameAccounts g g'
  settles g g' settled checks h same =
      bind_ok checks (λ _. ok settled) h λ _ _ is. let e : settled ≡ g' = cc is in rw (← e) same

  module _ (IsGenuine : Bytes → Type 0) (P : Gateway D → Type 0) (kept : IsKept IsGenuine P) where
    pub out_here_all-kept :
        (c : Context) (g g' : Gateway D) (journals : List Bytes) (amounts : List U256)
        → All IsGenuine journals
        → out_here_all D c g journals amounts ≡ ok g'
        → P g
        → P g'
    unfolding out_here_all
    out_here_all-kept c g g' [] amounts all h p = let same : g ≡ g' = cc in rw (← same) p
    out_here_all-kept c g g' (journal ∷ journals) [] all h p = absurd (cc)
    out_here_all-kept c g g' (journal ∷ journals) (amount ∷ amounts) (genuine, all) h p =
        bind_ok (out_here_one D c g journal amount) _ h λ middle first rest.
          out_here_all-kept c middle g' journals amounts all rest (
            kept.credited c g middle journal amount genuine
              ((out_here_one_iff D c g middle journal amount).0 first) p)

    out_here-kept :
        (c : Context) (g g' : Gateway D) (journal_data seal : Bytes) (amounts : List U256)
        (receiver : Address)
        → ((journals : List Bytes)
            → c.abi_decode journal_data ≡ ok journals
            → All IsGenuine journals)
        → out_here D c g journal_data seal amounts receiver ≡ ok g'
        → P g
        → P g'
    unfolding out_here
    out_here-kept c g g' journal_data seal amounts receiver genuine h p =
        bind_ok (not_paused D g amount_out_here) _ h λ _ _ h₁.
          bind_ok (if_not_blacklisted D c c.sender) _ h₁ λ _ _ h₂.
            bind_ok (if_not_blacklisted D c receiver) _ h₂ λ _ _ h₃.
              bind_ok
                (if c.is_allowed_for c.sender proof_batch_forwarder
                  then ok tt
                  else verify_proof D c g journal_data seal)
                _ h₃
                λ _ _ h₄. reverted_ok (c.abi_decode journal_data) _ h₄ λ journals read h₅.
                  require_ok (length journals == length amounts) _ _ h₅ λ _ paid.
                    out_here_all-kept c g g' journals amounts (genuine journals read) paid p

    dispatch-kept :
        (c : Context) (g g' : Gateway D) (call : Call)
        → Presents D IsGenuine c call
        → dispatch D c g call ≡ ok g'
        → P g
        → P g'
    unfolding dispatch set_whitelisted_user enable_whitelist disable_whitelist set_paused
        set_gas_fee withdraw_gas_fees update_zk_verifier update_allowed_caller_status
    dispatch-kept c g g' (set_whitelisted_user_call user state) genuine h p =
        kept.same g g' (settles g g' _ (only_owner D c g) h (refl, refl, refl, refl)) p
    dispatch-kept c g g' enable_whitelist_call genuine h p =
        kept.same g g' (settles g g' _ (only_owner D c g) h (refl, refl, refl, refl)) p
    dispatch-kept c g g' disable_whitelist_call genuine h p =
        kept.same g g' (settles g g' _ (only_owner D c g) h (refl, refl, refl, refl)) p
    dispatch-kept c g g' (set_paused_call operation state) genuine h p =
        kept.same g g' (settles g g' _ _ h (refl, refl, refl, refl)) p
    dispatch-kept c g g' (extract_for_rebalancing_call amount) genuine h p =
        kept.extraction g g' (extract_for_rebalancing-Extraction c g g' amount h) p
    dispatch-kept c g g' (set_gas_fee_call amount) genuine h p =
        kept.same g g' (settles g g' _ (only_owner D c g) h (refl, refl, refl, refl)) p
    dispatch-kept c g g' (withdraw_gas_fees_call receiver) genuine h p =
        require_ok (c.sender == g.owner || c.is_allowed_for c.sender sequencer) _ _ h
          λ _ rest. kept.same g g' (settles g g' _ _ rest (refl, refl, refl, refl)) p
    dispatch-kept c g g' (update_zk_verifier_call zk_verifier) genuine h p =
        bind_ok (only_owner D c g) _ h
          λ _ _ rest. kept.same g g' (settles g g' _ _ rest (refl, refl, refl, refl)) p
    dispatch-kept c g g' (update_allowed_caller_status_call caller status) genuine h p =
        kept.same g g' (settles g g' _ (ok tt) h (refl, refl, refl, refl)) p
    dispatch-kept c g g' (supply_on_host_call amount receiver) genuine h p =
        kept.deposited g g' (supply_on_host-Deposited c g g' amount receiver h) p
    dispatch-kept c g g' (out_here_call journal_data seal amounts receiver) genuine h p =
        out_here-kept c g g' journal_data seal amounts receiver genuine h p

    pub Reach-kept : (start g : Gateway D) → Reach D IsGenuine start g → P start → P g
    Reach-kept start g here p = p
    Reach-kept start g (next c call genuine reached h) p =
        dispatch-kept c _ g call genuine h (Reach-kept start _ reached p)
    Reach-kept start g (owned {g = middle} owner reached) p =
        kept.same middle g (refl, refl, refl, refl) (Reach-kept start middle reached p)
    Reach-kept start g (others {g = middle} token moves reached) p =
        kept.donation middle token moves (Reach-kept start middle reached p)
