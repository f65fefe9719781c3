-- ===== src/Host/Bonsai/Polling.antt =====
-- The polling loops: how they end.
use malda_lending_fuzz.Prelude.{
  ℕ, zero, suc, ◌+◌, ◌<◌, ◌≡◌, ◌≢◌, ◌⊎◌, inl, inr, refl, sym, ap, ◌∙◌, arith, Bool, true, false,
  Result, ok, err,
}
use malda_lending_fuzz.Host.Bonsai.{Failure, still_polling, Round, again, done, poll}
use native.Mathlib.Nat.{add-zero}

abbrev pub is_done {ℓ} : {A : Type ℓ} → Round A → Bool
is_done again = false
is_done (done r) = true

Round-cases {ℓ} : {A : Type ℓ} (r : Round A) → (r ≡ again) ⊎ ((q : Result Failure A) × (r ≡ done q))
Round-cases again = inl refl
Round-cases (done q) = inr (q, refl)

poll-again {ℓ} :
    {A : Type ℓ} (round : ℕ → Round A) (fuel n : ℕ)
    → round n ≡ again
    → poll round (suc fuel) n ≡ poll round fuel (suc n)
unfolding poll
poll-again round fuel n e = rw (poll, e) refl

poll-done {ℓ} :
    {A : Type ℓ} (round : ℕ → Round A) (fuel n : ℕ) {r : Result Failure A}
    → round n ≡ done r
    → poll round (suc fuel) n ≡ r
unfolding poll
poll-done round fuel n e = rw (poll, e) refl

-- The round that ends a loop with a value.
pub poll_sound {ℓ} :
    {A : Type ℓ} (round : ℕ → Round A) (fuel n : ℕ) {a : A}
    → poll round fuel n ≡ ok a
    → (k : ℕ) × (round k ≡ done (ok a))
unfolding poll
poll_sound round zero n h = absurd (cc)
poll_sound round (suc fuel) n h = elim (Round-cases (round n)) [
  | inl e ↦ poll_sound round fuel (suc n) (sym (poll-again round fuel n e) ∙ h)
  | inr (r, e) ↦ (n, e ∙ ap done (sym (poll-done round fuel n e) ∙ h))
]

suc-shift {ℓ} :
    {A : Type ℓ} (round : ℕ → Round A) (n k : ℕ)
    → is_done (round (n + suc k)) ≡ true
    → is_done (round (suc n + k)) ≡ true
suc-shift round n k ends = ap is_done (ap round (omega arith)) ∙ ends

-- A loop that has a last round within its fuel ends with the outcome of a round.
poll_ends {ℓ} :
    {A : Type ℓ} (round : ℕ → Round A) (fuel n k : ℕ)
    → k < fuel
    → is_done (round (n + k)) ≡ true
    → (j : ℕ) × (round j ≡ done (poll round fuel n))
unfolding poll
poll_ends round zero n k small ends = absurd (omega arith)
poll_ends round (suc fuel) n zero small ends = elim (Round-cases (round n)) [
  | inl e ↦ let here = ap is_done (ap round (add-zero n)) in let going = ap is_done e in absurd (cc)
  | inr (r, e) ↦ (n, e ∙ ap done (sym (poll-done round fuel n e)))
]
poll_ends round (suc fuel) n (suc k) small ends = elim (Round-cases (round n)) [
  | inl e ↦
      let (j, last) = poll_ends round fuel (suc n) k (omega arith) (suc-shift round n k ends) in
      (j, last ∙ ap done (sym (poll-again round fuel n e)))
  | inr (r, e) ↦ (n, e ∙ ap done (sym (poll-done round fuel n e)))
]

pub loop_ends {ℓ} :
    {A : Type ℓ} (round : ℕ → Round A) (fuel k : ℕ)
    → k < fuel
    → is_done (round k) ≡ true
    → ((j : ℕ) → round j ≢ done (err still_polling))
    → poll round fuel 0 ≢ err still_polling
loop_ends round fuel k small ends never h =
    let (j, last) = poll_ends round fuel 0 k small (ap is_done (ap round (omega arith)) ∙ ends) in
    never j (last ∙ ap done h)
