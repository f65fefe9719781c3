-- ===== src/Host/DisputeGame/Repeated.antt =====
-- The host's checks on a dispute game against the guest's, which repeats them on the input that the
-- host's calls have left.
use malda_lending_fuzz.Prelude.{
  ℕ, ◌≡◌, refl, sym, ◌∙◌, Bool, Outcome, Panic, ◌>>=◌, ◌>>◌, ok_unique, not, leb, ◌==◌, ok, bind_ok,
  assert_ok, assert, expect_ok-eq-ok, preflight_failed, insufficient_time_passed,
  root_claim_mismatch,
}
use malda_lending_fuzz.Bytes.{Address}
use malda_lending_fuzz.Externals.{Externals, eth}
use malda_lending_fuzz.Types.Contracts.{
  Call, Returns, Game, is_defender_wins, game_at_index, status, resolved_at, root_claim,
  dispute_game_factory, respected_game_type_updated_at, proof_maturity_delay_seconds,
  dispute_game_blacklist,
}
use malda_lending_fuzz.Validators.DisputeGame.{
  time_has_passed, validate_opstack_dispute_game_commitment,
}
use malda_lending_fuzz.Host.Chains.{get_portal_address}
use malda_lending_fuzz.Host.Chains.Agreement.{config_portal_lem}
use malda_lending_fuzz.Host.Network.{Network, call_preflight}
use malda_lending_fuzz.Host.DisputeGame.{check_dispute_game}

module _ {X : Externals} (N : Network X) where
  -- A host environment after some more calls.
  pub data Reaches : N.HostEnv eth → N.HostEnv eth → Type 0 where
    here : {env : N.HostEnv eth} → Reaches env env
    by_call :
        {env next end : N.HostEnv eth} (contract : Address) (c : Call) (answer : Returns c)
        → N.preflight eth env contract c ≡ ok (next, answer)
        → Reaches next end
        → Reaches env end

  then_call :
      {env middle end : N.HostEnv eth} (contract : Address) (c : Call) (answer : Returns c)
      → Reaches env middle
      → N.preflight eth middle contract c ≡ ok (end, answer)
      → Reaches env end
  then_call contract c answer here e = by_call contract c answer e here
  then_call contract c answer (by_call contract' c' answer' e' r) e =
      by_call contract' c' answer' e' (then_call contract c answer r e)

  -- What Steel documents of the guest's environment of an input: it is of the block of the host's
  -- environment, and answers each call that led from there to the input as it was answered then.
  pub record Replays (start end : N.HostEnv eth) (env : X.EvmEnv eth) : Type 0 where
    pub keeps_header : (e : N.HostEnv eth) → Reaches start e → N.header e ≡ X.env_header env
    pub answers :
        {before after : N.HostEnv eth} (contract : Address) (c : Call) (answer : Returns c)
        → Reaches start before
        → N.preflight eth before contract c ≡ ok (after, answer)
        → Reaches after end
        → X.call eth env contract c ≡ ok answer

  answered :
      {before after : N.HostEnv eth} (contract : Address) (c : Call) (answer : Returns c)
      → call_preflight N eth before contract c ≡ ok (after, answer)
      → N.preflight eth before contract c ≡ ok (after, answer)
  unfolding call_preflight
  answered contract c answer h = expect_ok-eq-ok _ preflight_failed h

  -- One step of a host program that ends in `end` beside the guest's: a call, and an assertion.
  module _ (start end : N.HostEnv eth) (env : X.EvmEnv eth) (replays : Replays start end env) where
    beside_call :
        {before : N.HostEnv eth} (contract : Address) (c : Call)
        (host : N.HostEnv eth × Returns c → Outcome (N.HostEnv eth))
        (guest : Returns c → Outcome (Unit {0}))
        → Reaches start before
        → (call_preflight N eth before contract c >>= host) ≡ ok end
        → ((after : N.HostEnv eth) (answer : Returns c)
            → Reaches start after
            → host (after, answer) ≡ ok end
            → Reaches after end × (guest answer ≡ ok tt))
        → Reaches before end × ((X.call eth env contract c >>= guest) ≡ ok tt)
    beside_call {before} contract c host guest r h rest =
        bind_ok (call_preflight N eth before contract c) host h λ (after, answer) called h₁.
          let made = answered contract c answer called in
          let (onward, passes) = rest after answer (then_call contract c answer r made) h₁ in
          (
            by_call contract c answer made onward,
            rw (replays.answers contract c answer r made onward) passes,
          )

    beside_assert :
        {before : N.HostEnv eth} (t : Bool) (p : Panic) (host : Outcome (N.HostEnv eth))
        (guest : Outcome (Unit {0}))
        → (assert t p >> host) ≡ ok end
        → (host ≡ ok end → Reaches before end × (guest ≡ ok tt))
        → Reaches before end × ((assert t p >> guest) ≡ ok tt)
    beside_assert t p host guest h rest =
        assert_ok t p host h λ holds h₁. let (onward, passes) = rest h₁ in (onward, rw holds passes)

    -- The last assertion.
    beside_last :
        (before : N.HostEnv eth) (t : Bool) (p : Panic)
        → (assert t p >> ok before) ≡ ok end
        → Reaches before end × (assert t p ≡ ok tt)
    beside_last before t p h =
        assert_ok t p (ok before) h λ holds h₁.
          let same : before ≡ end = ok_unique refl h₁ in (rw (← same) here, rw holds refl)

    -- The checks from the resolution on.
    on_time :
        {before : N.HostEnv eth} (portal : Address) (game : Game) (commitment : X.Commitment)
        → Reaches start before
        → (do
          (env_6, resolved) ← call_preflight N eth before game.game_address resolved_at
          (env_7, delay) ← call_preflight N eth env_6 portal proof_maturity_delay_seconds
          let current_timestamp = X.timestamp (N.header env_7)
          assert (time_has_passed X current_timestamp resolved delay) insufficient_time_passed
          (env_8, root) ← call_preflight N eth env_7 game.game_address root_claim
          assert (root == X.digest commitment) root_claim_mismatch
          ok env_8)
          ≡ ok end
        → Reaches before end
          × ((do
            resolved ← X.call eth env game.game_address resolved_at
            delay ← X.call eth env portal proof_maturity_delay_seconds
            let current_timestamp = X.timestamp (X.env_header env)
            assert (time_has_passed X current_timestamp resolved delay) insufficient_time_passed
            root ← X.call eth env game.game_address root_claim
            assert (root == X.digest commitment) root_claim_mismatch)
              ≡ ok tt)
    on_time portal game commitment r h =
        beside_call game.game_address resolved_at _ _ r h λ _ resolved r₁ h₁.
          beside_call portal proof_maturity_delay_seconds _ _ r₁ h₁ λ e delay r₂ h₂.
            rw (← replays.keeps_header e r₂) (
              beside_assert (time_has_passed X (X.timestamp (N.header e)) resolved delay) _ _ _ h₂
                λ h₃.
                  beside_call game.game_address root_claim _ _ r₂ h₃
                    λ last root r₃ h₄. beside_last last (root == X.digest commitment) _ h₄)

    -- Where the host's checks on a dispute game pass, and the guest's environment replays the calls
    -- that they made, the guest's checks on the same commitment pass.
    pub check_dispute_game-validate :
        (chain_id : ℕ) (commitment : X.Commitment)
        → check_dispute_game N chain_id start commitment ≡ ok end
        → validate_opstack_dispute_game_commitment X chain_id env commitment ≡ ok tt
    unfolding check_dispute_game validate_opstack_dispute_game_commitment
    check_dispute_game-validate chain_id commitment h =
        bind_ok (get_portal_address chain_id) _ h λ portal known h₁.
          rw (sym (config_portal_lem chain_id).1 ∙ known)
            (beside_call portal dispute_game_factory _ _ here h₁ λ _ factory r₁ h₂.
              beside_call factory (game_at_index (X.decode_id commitment).0) _ _ r₁ h₂
                λ _ game r₂ h₃. beside_assert (game.game_type == 0) _ _ _ h₃ λ h₄.
                  beside_call portal respected_game_type_updated_at _ _ r₂ h₄ λ _ updated r₃ h₅.
                    beside_assert (leb updated game.created_at) _ _ _ h₅ λ h₆.
                      beside_call game.game_address status _ _ r₃ h₆ λ _ won r₄ h₇.
                        beside_assert (is_defender_wins won) _ _ _ h₇ λ h₈.
                          beside_call portal (dispute_game_blacklist game.game_address) _ _ r₄ h₈
                            λ _ listed r₅ h₉.
                              beside_assert (not listed) _ _ _ h₉
                                (on_time portal game commitment r₅)).1
