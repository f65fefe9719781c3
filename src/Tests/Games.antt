-- ===== src/Tests/Games.antt =====
-- An example of a dispute game that the host has checked.
use malda_lending_fuzz.Prelude.{ℕ, ◌≡◌, refl, sym, ap, ◌∙◌, ok, ok_unique, Result-cases, inl, inr}
use malda_lending_fuzz.Bytes.{Address}
use malda_lending_fuzz.Constants.{optimism_chain_id}
use malda_lending_fuzz.Externals.{eth}
use malda_lending_fuzz.Externals.Sample.{sample}
use malda_lending_fuzz.Types.Contracts.{Call, Returns, is_defender_wins}
use malda_lending_fuzz.Validators.DisputeGame.{
  time_has_passed, validate_opstack_dispute_game_commitment,
}
use malda_lending_fuzz.Host.Chains.{get_portal_address}
use malda_lending_fuzz.Host.Network.{call_preflight}
use malda_lending_fuzz.Host.DisputeGame.{check_dispute_game}
use malda_lending_fuzz.Host.DisputeGame.Repeated.{
  Reaches, here, by_call, Replays, check_dispute_game-validate,
}
use malda_lending_fuzz.Tests.Inputs.{network}

-- A call keeps the environment and answers as the sample does.
same_env :
    (before after : ℕ) (contract : Address) (c : Call) (answer : Returns c)
    → network.preflight eth before contract c ≡ ok (after, answer)
    → (before ≡ after) × (sample.call eth before contract c ≡ ok answer)
same_env before after contract c answer h =
    elim (Result-cases (sample.call eth before contract c)) [
      | inl (given, e) ↦
          let same : (before, given) ≡ (after, answer) = ok_unique refl (rw (network, e) at h) in
          (ap (λ (p : ℕ × Returns c). p.0) same, e ∙ ap (λ (p : ℕ × Returns c). ok p.1) same)
      | inr (error, e) ↦ absurd (cc (rw (network, e) at h))
    ]

stays : (start end : ℕ) → Reaches network start end → start ≡ end
stays start end here = refl
stays start end (by_call {next} contract c answer e r) =
    (same_env start next contract c answer e).0 ∙ stays next end r

pub replays : (block : ℕ) → Replays network block block block
replays block = record {
  keeps_header = λ e r. sym (stays block e r);
  answers = λ {before} {after} contract c answer r e r'.
      rw (sym (stays block before r)) at (same_env before after contract c answer e).1;
}

checked : check_dispute_game network optimism_chain_id 100 9 ≡ ok 100
unfolding check_dispute_game get_portal_address call_preflight is_defender_wins time_has_passed
checked = refl

check_dispute_game-validate_example :
    validate_opstack_dispute_game_commitment sample optimism_chain_id 100 9 ≡ ok tt
check_dispute_game-validate_example =
    check_dispute_game-validate network 100 100 100 (replays 100) optimism_chain_id 9 checked
