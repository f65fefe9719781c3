-- ===== src/Contracts/OutHere/Credited.antt =====
-- When a journal is paid.
use malda_lending_fuzz.Prelude.{
  ℕ, ◌+◌, ◌-◌, ◌^◌, ◌%◌, ◌≤◌, ◌<◌, ◌≡◌, ◌↔◌, ◌⊎◌, inl, inr, refl, arith, Bool, true, false, ◌||◌,
  ltb, leb, ◌==◌, ==_iff, ==_refl, ok, ◌∷◌, bind_ok,
}
use malda_lending_fuzz.Bytes.{Bytes, Address, U256}
use malda_lending_fuzz.Constants.{linea_chain_id}
use malda_lending_fuzz.Journal.{Entry}
use malda_lending_fuzz.Contracts.{
  checked_add, checked_sub, decoded, update, proof_forwarder, proof_batch_forwarder, Deployment,
  Context, require_ok, reverted_ok,
}
use malda_lending_fuzz.Contracts.Gateway.{Gateway, extracted}
use malda_lending_fuzz.Contracts.OutHere.{check_sender, pay, out_here_one}

or_cases : (a b : Bool) → (a || b) ≡ true → (a ≡ true) ⊎ (b ≡ true)
or_cases true b h = inl refl
or_cases false b h = inr h

checked_sub-ok : (a b l : ℕ) → checked_sub a b ≡ ok l → (b ≤ a) × (l ≡ a - b)
unfolding checked_sub
checked_sub-ok a b l h = ground arith

pub checked_add-ok : (a b l : ℕ) → checked_add a b ≡ ok l → (a + b < 2 ^ 256) × (l ≡ a + b)
unfolding checked_add
checked_add-ok a b l h = ground arith

module _ (D : Deployment) where
  -- Who may withdraw what a user is credited: the user, whom the user has allowed, the owner, and who
  -- has the role of a forwarder or of a batch forwarder of proofs.
  pub data MayWithdraw (c : Context) (g : Gateway D) (user : Address) : Type 0 where
    as_user : c.sender ≡ user → MayWithdraw c g user
    as_allowed : g.allowed_callers user c.sender ≡ true → MayWithdraw c g user
    as_owner : c.sender ≡ g.owner → MayWithdraw c g user
    as_forwarder : c.is_allowed_for c.sender proof_forwarder ≡ true → MayWithdraw c g user
    as_batch_forwarder :
        c.is_allowed_for c.sender proof_batch_forwarder ≡ true → MayWithdraw c g user

  check_sender_sound :
      (c : Context) (g : Gateway D) (user : Address)
      → check_sender D c g c.sender user ≡ true
      → MayWithdraw c g user
  unfolding check_sender
  check_sender_sound c g user h =
      elim (or_cases _ (c.is_allowed_for c.sender proof_batch_forwarder) h) [
        | inr e ↦ as_batch_forwarder e
        | inl h₁ ↦ elim (or_cases _ (c.is_allowed_for c.sender proof_forwarder) h₁) [
          | inr e ↦ as_forwarder e
          | inl h₂ ↦ elim (or_cases _ (c.sender == g.owner) h₂) [
            | inr e ↦ as_owner ((==_iff _ _).0 e)
            | inl h₃ ↦ elim (or_cases (c.sender == user) (g.allowed_callers user c.sender) h₃) [
              | inl e ↦ as_user ((==_iff _ _).0 e)
              | inr e ↦ as_allowed e
            ]
          ]
        ]
      ]

  check_sender_complete :
      (c : Context) (g : Gateway D) (user : Address)
      → MayWithdraw c g user
      → check_sender D c g c.sender user ≡ true
  unfolding check_sender
  check_sender_complete c g user (as_user e) = ground arith
  check_sender_complete c g user (as_allowed e) = ground arith
  check_sender_complete c g user (as_owner e) = ground arith
  check_sender_complete c g user (as_forwarder e) = ground arith
  check_sender_complete c g user (as_batch_forwarder e) = ground arith

  -- The journal is an entry of the host chain about this market and this chain, whose sender the
  -- caller may act for, and the amount is positive, within what the entry credits beyond what has been
  -- paid before, and at hand; the amount is paid to the entry's sender and added to what has been paid.
  pub record Credited (c : Context) (g : Gateway D) (journal : Bytes) (amount : U256)
      (g' : Gateway D) : Type 0 where
    pub entry : Entry
    pub read : decoded journal ≡ ok entry
    pub allowed : MayWithdraw c g entry.sender
    pub market : entry.market ≡ D.this
    pub host : entry.chain_id ≡ linea_chain_id
    pub destination : entry.dst_chain_id ≡ D.chain_id % 2 ^ 32
    pub positive : 0 < amount
    pub within : g.acc_amount_out entry.sender + amount ≤ entry.acc_amount_out
    pub cash : amount ≤ D.balance_of g.token D.this
    pub small : g.acc_amount_out entry.sender + amount < 2 ^ 256
    pub token : D.Token
    pub moved : D.safe_transfer g.token D.this entry.sender amount ≡ ok token
    pub after : g' ≡ record g {
      acc_amount_out =
          update g.acc_amount_out entry.sender (g.acc_amount_out entry.sender + amount);
      token = token;
      log = extracted entry.sender amount ∷ g.log;
    }

  out_here_one_sound :
      (c : Context) (g g' : Gateway D) (journal : Bytes) (amount : U256)
      → out_here_one D c g journal amount ≡ ok g'
      → Credited c g journal amount g'
  unfolding out_here_one pay
  out_here_one_sound c g g' journal amount h = bind_ok (decoded journal) _ h λ e read h₁.
      require_ok (check_sender D c g c.sender e.sender) _ _ h₁ λ allowed h₂.
        require_ok (e.market == D.this) _ _ h₂ λ market h₃.
          require_ok (e.chain_id == linea_chain_id) _ _ h₃ λ host h₄.
            require_ok (e.dst_chain_id == D.chain_id % 2 ^ 32) _ _ h₄ λ destination h₅.
              require_ok (ltb 0 amount) _ _ h₅ λ positive h₆.
                bind_ok (checked_sub e.acc_amount_out (g.acc_amount_out e.sender)) _ h₆
                  λ left subtracted h₇. require_ok (leb amount left) _ _ h₇ λ within h₈.
                    require_ok (leb amount (D.balance_of g.token D.this)) _ _ h₈ λ cash h₉.
                      bind_ok (checked_add (g.acc_amount_out e.sender) amount) _ h₉
                        λ total added h₁₀.
                          reverted_ok (D.safe_transfer g.token D.this e.sender amount) _ h₁₀
                            λ token moved done.
                              let (below, is) = checked_sub-ok _ _ _ subtracted in
                              let (small, sum) = checked_add-ok _ _ _ added in
                              record {
                                entry = e;
                                read = read;
                                allowed = check_sender_sound c g e.sender allowed;
                                market = (==_iff _ _).0 market;
                                host = (==_iff _ _).0 host;
                                destination = (==_iff _ _).0 destination;
                                positive = ground arith;
                                within = ground arith;
                                cash = ground arith;
                                small = small;
                                token = token;
                                moved = moved;
                                after = rw (← sum) (cc);
                              }

  out_here_one_complete :
      (c : Context) (g g' : Gateway D) (journal : Bytes) (amount : U256)
      → Credited c g journal amount g'
      → out_here_one D c g journal amount ≡ ok g'
  unfolding out_here_one pay
  out_here_one_complete c g g' journal amount p =
      let e = p.entry in
      let paid_before = g.acc_amount_out e.sender in
      let left : checked_sub e.acc_amount_out paid_before ≡ ok (e.acc_amount_out - paid_before) =
        unfold checked_sub in ground (arith, p.within) in
      let total : checked_add paid_before amount ≡ ok (paid_before + amount) =
        unfold checked_add in ground (arith, p.small) in
      let enough : leb amount (e.acc_amount_out - paid_before) ≡ true = ground (arith, p.within) in
      let cash : leb amount (D.balance_of g.token D.this) ≡ true = ground (arith, p.cash) in
      let positive : ltb 0 amount ≡ true = ground (arith, p.positive) in
      rw
        (
          p.read,
          check_sender_complete c g e.sender p.allowed,
          p.market,
          p.host,
          p.destination,
          ==_refl D.this,
          ==_refl (D.chain_id % 2 ^ 32),
          positive,
          left,
          enough,
          cash,
          total,
          p.moved,
          p.after,
        )
        refl

  -- GW02 of the README: `_outHere` succeeds exactly where the journal is an entry of Linea about this
  -- market and this chain, the caller is the entry's sender, one whom the sender has allowed, the owner
  -- or a forwarder or batch forwarder of proofs, and the amount is positive, with what has been paid
  -- to the sender before no more than the entry credits and below 2^256, and held by the gateway, whose
  -- token moves it to the sender; what has been paid to the sender grows by the amount, the token and
  -- the log change, and nothing else does.
  pub out_here_one_iff :
      (c : Context) (g g' : Gateway D) (journal : Bytes) (amount : U256)
      → (out_here_one D c g journal amount ≡ ok g') ↔ Credited c g journal amount g'
  out_here_one_iff c g g' journal amount =
      (out_here_one_sound c g g' journal amount, out_here_one_complete c g g' journal amount)
