-- ===== src/Contracts/Calls/Accounts.antt =====
-- The accounts of the gateway against the log of its calls.
use malda_lending_fuzz.Prelude.{
  ℕ, ◌+◌, ◌≤◌, ◌≡◌, refl, arith, not, Bool, ◌==◌, if◌then◌else◌, List, [], ◌∷◌, ok,
}
use malda_lending_fuzz.Bytes.{Bytes, Address, U256}
use malda_lending_fuzz.Contracts.{Deployment, require_ok, returned}
use malda_lending_fuzz.Contracts.Gateway.{
  initialize, Gateway, Event, supplied, extracted, rebalanced, donated,
}
use malda_lending_fuzz.Contracts.Calls.{Reach}
use malda_lending_fuzz.Contracts.Calls.Preserved.{IsKept, Reach-kept}

-- What the log says was supplied for a user, and was paid to one.
abbrev pub supplied_to : Address → List Event → ℕ
supplied_to user [] = 0
supplied_to user (supplied from receiver amount ∷ log) =
    (if receiver == user then amount else 0) + supplied_to user log
supplied_to user (extracted sender amount ∷ log) = supplied_to user log
supplied_to user (rebalanced to amount ∷ log) = supplied_to user log
supplied_to user (donated amount ∷ log) = supplied_to user log

abbrev pub extracted_by : Address → List Event → ℕ
extracted_by user [] = 0
extracted_by user (supplied from receiver amount ∷ log) = extracted_by user log
extracted_by user (extracted sender amount ∷ log) =
    (if sender == user then amount else 0) + extracted_by user log
extracted_by user (rebalanced to amount ∷ log) = extracted_by user log
extracted_by user (donated amount ∷ log) = extracted_by user log

module _ (D : Deployment) where
  -- What the log says came in and went out; what the gateway sends itself does neither.
  abbrev pub taken_in : List Event → ℕ
  taken_in [] = 0
  taken_in (supplied from receiver amount ∷ log) =
      (if from == D.this then 0 else amount) + taken_in log
  taken_in (extracted sender amount ∷ log) = taken_in log
  taken_in (rebalanced to amount ∷ log) = taken_in log
  taken_in (donated amount ∷ log) = amount + taken_in log

  abbrev pub given_out : List Event → ℕ
  given_out [] = 0
  given_out (supplied from receiver amount ∷ log) = given_out log
  given_out (extracted sender amount ∷ log) =
      (if sender == D.this then 0 else amount) + given_out log
  given_out (rebalanced to amount ∷ log) = (if to == D.this then 0 else amount) + given_out log
  given_out (donated amount ∷ log) = given_out log

  -- The documented behaviour of an ERC-20 token without fees: a transfer moves the amount, and no one
  -- else spends what is the gateway's, which approves no spender.
  pub record IsErc20 : Type 0 where
    pub sent :
        (t t' : D.Token) (to : Address) (amount : U256)
        → D.safe_transfer t D.this to amount ≡ ok t'
        → D.balance_of t' D.this + (if to == D.this then 0 else amount) ≡ D.balance_of t D.this
    pub received :
        (t t' : D.Token) (from : Address) (amount : U256)
        → D.safe_transfer_from t D.this from D.this amount ≡ ok t'
        → D.balance_of t' D.this ≡ D.balance_of t D.this + (if from == D.this then 0 else amount)
    pub elsewhere :
        (t t' : D.Token) → D.Elsewhere t t' → D.balance_of t D.this ≤ D.balance_of t' D.this

  -- The accounts of every user and the tokens held are what the log says.
  pub record IsBalanced (funds : U256) (g : Gateway D) : Type 0 where
    pub deposits : (user : Address) → g.acc_amount_in user ≡ supplied_to user g.log
    pub payments : (user : Address) → g.acc_amount_out user ≡ extracted_by user g.log
    pub held : D.balance_of g.token D.this + given_out g.log ≡ funds + taken_in g.log

  initialize-IsBalanced :
      (takes_owner : Address → Bool) (owner underlying roles blacklister zk_verifier : Address)
      (token : D.Token) (start : Gateway D)
      → initialize D takes_owner owner underlying roles blacklister zk_verifier token ≡ ok start
      → IsBalanced (D.balance_of token D.this) start
  unfolding initialize
  initialize-IsBalanced takes_owner owner underlying roles blacklister zk_verifier token start
        made =
      require_ok (takes_owner owner) _ _ made λ _ h₁. require_ok (not (roles == 0)) _ _ h₁ λ _ h₂.
        require_ok (not (zk_verifier == 0)) _ _ h₂ λ _ h₃.
          require_ok (not (blacklister == 0)) _ _ h₃ λ _ h₄.
            require_ok (not (underlying == 0)) _ _ h₄ λ _ is.
              returned (IsBalanced (D.balance_of token D.this)) _ refl is
                (record { deposits = λ _. refl; payments = λ _. refl; held = refl })

  IsBalanced-kept :
      (IsGenuine : Bytes → Type 0)
      → IsErc20
      → (funds : U256) → IsKept D IsGenuine (IsBalanced funds)
  IsBalanced-kept IsGenuine erc20 funds = record {
    same = λ g g' (acc_in, acc_out, token, log) b. record {
      deposits = λ user. rw (acc_in, log) (b.deposits user);
      payments = λ user. rw (acc_out, log) (b.payments user);
      held = rw (token, log) b.held;
    };
    deposited = λ g g' d b. record {
      deposits =
          λ user. rw (d.acc_in, d.log) (ground (arith, b.deposits user, b.deposits d.receiver));
      payments = λ user. rw (d.acc_out, d.log) (b.payments user);
      held =
          rw d.log
            (ground (arith, erc20.received g.token g'.token d.from d.amount d.moved, b.held));
    };
    extraction = λ g g' d b. record {
      deposits = λ user. rw (d.acc_in, d.log) (b.deposits user);
      payments = λ user. rw (d.acc_out, d.log) (b.payments user);
      held = rw d.log (ground (arith, erc20.sent g.token g'.token d.to d.amount d.moved, b.held));
    };
    donation = λ g token moves b. record {
      deposits = λ user. b.deposits user;
      payments = λ user. b.payments user;
      held = ground (arith, erc20.elsewhere g.token token moves, b.held);
    };
    credited = λ c g g' journal amount _ d b. rw d.after (record {
      deposits = λ user. b.deposits user;
      payments = λ user. ground (arith, b.payments user, b.payments d.entry.sender);
      held = ground (arith, erc20.sent g.token d.token d.entry.sender amount d.moved, b.held);
    });
  }

  -- GW01 and GW04 of the README: where the token is an ERC-20 without fees, in every state that
  -- successful calls of an initialised gateway, with genuine journals or not, and changes of the token
  -- by others reach, what is recorded as deposited for a user is what was supplied for the user, what is
  -- recorded as paid is what was paid to the user, and the tokens held, with all that was paid and
  -- rebalanced, are those held at first with all that was supplied or sent by others without a call
  -- of the gateway (which GW04 leaves out).
  pub Reach-IsBalanced :
      (IsGenuine : Bytes → Type 0) (takes_owner : Address → Bool)
      (owner underlying roles blacklister zk_verifier : Address) (token : D.Token)
      (start g : Gateway D)
      → IsErc20
      → initialize D takes_owner owner underlying roles blacklister zk_verifier token ≡ ok start
      → Reach D IsGenuine start g
      → IsBalanced (D.balance_of token D.this) g
  Reach-IsBalanced IsGenuine takes_owner owner underlying roles blacklister zk_verifier token start
        g erc20 made reached =
      let funds = D.balance_of token D.this in
      Reach-kept D IsGenuine (IsBalanced funds) (IsBalanced-kept IsGenuine erc20 funds) start g
        reached
        (initialize-IsBalanced takes_owner owner underlying roles blacklister zk_verifier token
          start made)
