-- ===== src/Validators/DisputeGame/Sound.antt =====
-- What a dispute game that passes the checks has shown.
use malda_lending_fuzz.Prelude.{
  ℕ, ◌+◌, ◌-◌, ◌^◌, ◌≤◌, ◌<◌, ◌≡◌, ◌↔◌, ◌&&◌, ◌||◌, if◌then◌else◌, arith, true, false, not, ltb,
  leb, ◌==◌, ok, bind_ok, assert_ok, game_type_not_respected, game_created_before_update,
  game_not_defender_wins, game_blacklisted, insufficient_time_passed,
}
use malda_lending_fuzz.Bytes.{Address, U256}
use malda_lending_fuzz.Externals.{Externals, IsLawful, eth}
use malda_lending_fuzz.Types.Contracts.{
  Game, GameStatus, is_defender_wins, defender_wins, game_at_index, status, resolved_at, root_claim,
  dispute_game_factory, respected_game_type_updated_at, proof_maturity_delay_seconds,
  dispute_game_blacklist,
}
use malda_lending_fuzz.Validators.DisputeGame.{
  portal_address, time_has_passed, validate_opstack_dispute_game_commitment,
}

module _ (X : Externals) where
  -- The answers of the contracts on Ethereum, as the validated environment holds them.
  pub record Answers (chain_id : ℕ) (eth_env : X.EvmEnv eth) (commitment : X.Commitment)
      : Type 0 where
    pub portal : Address
    pub factory : Address
    pub game : Game
    pub updated_at : U256
    pub resolved : ℕ
    pub delay : U256
    pub portal_known : portal_address chain_id ≡ ok portal
    pub factory_read : X.call eth eth_env portal dispute_game_factory ≡ ok factory
    pub game_read : X.call eth eth_env factory (game_at_index (X.decode_id commitment).0) ≡ ok game
    pub updated_read : X.call eth eth_env portal respected_game_type_updated_at ≡ ok updated_at
    pub status_read : X.call eth eth_env game.game_address status ≡ ok defender_wins
    pub blacklist_read :
        X.call eth eth_env portal (dispute_game_blacklist game.game_address) ≡ ok false
    pub resolved_read : X.call eth eth_env game.game_address resolved_at ≡ ok resolved
    pub delay_read : X.call eth eth_env portal proof_maturity_delay_seconds ≡ ok delay
    pub claim_read : X.call eth eth_env game.game_address root_claim ≡ ok (X.digest commitment)
    pub type_respected : game.game_type ≡ 0
    pub created_after : updated_at ≤ game.created_at
    pub time_passed : time_has_passed X (X.timestamp (X.env_header eth_env)) resolved delay ≡ true

  is_defender_wins-eq-true : (s : GameStatus) → is_defender_wins s ≡ true → s ≡ defender_wins
  unfolding is_defender_wins
  is_defender_wins-eq-true s h = ground arith

  dispute_game_sound :
      (chain_id : ℕ) (eth_env : X.EvmEnv eth) (commitment : X.Commitment)
      → validate_opstack_dispute_game_commitment X chain_id eth_env commitment ≡ ok tt
      → Answers chain_id eth_env commitment
  unfolding validate_opstack_dispute_game_commitment
  dispute_game_sound chain_id eth_env commitment h =
      bind_ok (portal_address chain_id) _ h λ portal portal_known h₁.
        bind_ok (X.call eth eth_env portal dispute_game_factory) _ h₁ λ factory factory_read h₂.
          bind_ok (X.call eth eth_env factory (game_at_index (X.decode_id commitment).0)) _ h₂
            λ game game_read h₃.
              assert_ok (game.game_type == 0) game_type_not_respected _ h₃ λ t₁ h₄.
                bind_ok (X.call eth eth_env portal respected_game_type_updated_at) _ h₄
                  λ updated_at updated_read h₅.
                    assert_ok (leb updated_at game.created_at) game_created_before_update _ h₅
                      λ t₂ h₆.
                        bind_ok (X.call eth eth_env game.game_address status) _ h₆
                          λ game_status status_read h₇.
                            assert_ok (is_defender_wins game_status) game_not_defender_wins _ h₇
                              λ t₃ h₈.
                                bind_ok
                                  (X.call eth eth_env portal
                                    (dispute_game_blacklist game.game_address))
                                  _ h₈
                                  λ is_blacklisted blacklist_read h₉.
                                    assert_ok (not is_blacklisted) game_blacklisted _ h₉ λ t₄ k₁.
                                      bind_ok (X.call eth eth_env game.game_address resolved_at) _
                                        k₁
                                        λ resolved resolved_read k₂.
                                          bind_ok
                                            (X.call eth eth_env portal proof_maturity_delay_seconds)
                                            _ k₂
                                            λ delay delay_read k₃.
                                              assert_ok
                                                (time_has_passed X
                                                  (X.timestamp (X.env_header eth_env)) resolved
                                                  delay)
                                                insufficient_time_passed _ k₃
                                                λ t₅ k₄.
                                                  bind_ok
                                                    (X.call eth eth_env game.game_address
                                                      root_claim)
                                                    _ k₄
                                                    λ root claim_read t₆. record {
                                                      portal = portal;
                                                      factory = factory;
                                                      game = game;
                                                      updated_at = updated_at;
                                                      resolved = resolved;
                                                      delay = delay;
                                                      portal_known = portal_known;
                                                      factory_read = factory_read;
                                                      game_read = game_read;
                                                      updated_read = updated_read;
                                                      status_read =
                                                          rw
                                                            (is_defender_wins-eq-true game_status
                                                            t₃)
                                                            at status_read;
                                                      blacklist_read = ground arith;
                                                      resolved_read = resolved_read;
                                                      delay_read = delay_read;
                                                      claim_read = ground arith;
                                                      type_respected = ground arith;
                                                      created_after = ground arith;
                                                      time_passed = t₅;
                                                    }

  dispute_game_complete :
      (chain_id : ℕ) (eth_env : X.EvmEnv eth) (commitment : X.Commitment)
      → Answers chain_id eth_env commitment
      → validate_opstack_dispute_game_commitment X chain_id eth_env commitment ≡ ok tt
  unfolding validate_opstack_dispute_game_commitment is_defender_wins
  dispute_game_complete chain_id eth_env commitment a =
      rw
        (
          a.portal_known, a.factory_read, a.game_read, a.type_respected, a.updated_read, leb_holds,
          a.status_read, a.blacklist_read, a.resolved_read, a.delay_read, a.time_passed,
          a.claim_read,
        )
        (ground arith)
    where
      leb_holds : leb a.updated_at a.game.created_at ≡ true
      leb_holds = ground arith

  -- The dispute game check accepts exactly where the chain is an OpStack chain and the contracts of
  -- its portal answer, in the Ethereum environment, that the game at the committed index is of type
  -- 0, was created no earlier than the last update of the respected type, was won by the defender,
  -- is not blacklisted, has passed the test on time, and claims the committed root.
  pub dispute_game_iff :
      (chain_id : ℕ) (eth_env : X.EvmEnv eth) (commitment : X.Commitment)
      → (validate_opstack_dispute_game_commitment X chain_id eth_env commitment ≡ ok tt)
        ↔ Answers chain_id eth_env commitment
  dispute_game_iff chain_id eth_env commitment = (
    dispute_game_sound chain_id eth_env commitment,
    dispute_game_complete chain_id eth_env commitment,
  )

  -- Where U256 subtraction wraps, the times are below 2^64 and the delay below 2^255, the test on
  -- time lets a game through: for a delay of at least 300 seconds, exactly if more than the delay
  -- less 300 seconds has passed since the resolution, or the resolution lies in the future; for a
  -- shorter delay, exactly if the resolution lies in the future by less than 300 seconds less the
  -- delay.
  pub time_has_passed_lem :
      (now resolved : ℕ) (delay : U256)
      → IsLawful X
      → now < 2 ^ 64
      → resolved < 2 ^ 64
      → delay < 2 ^ 255
      → time_has_passed X now resolved delay ≡ (
          if leb 300 delay
          then ltb now resolved || ltb delay (now - resolved + 300)
          else ltb now resolved && ltb (resolved + delay) (now + 300))
  unfolding time_has_passed
  time_has_passed_lem now resolved delay lawful h₁ h₂ h₃ =
      rw (lawful.sub_wraps delay 300, lawful.sub_wraps now resolved) (ground arith)
