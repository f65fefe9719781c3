-- ===== src/Validators/Linea/Laws.antt =====
-- What a validated Linea block has shown, and what is refused.
use malda_lending_fuzz.Prelude.{
  ℕ, ◌-◌, ◌^◌, ◌≤◌, ◌<◌, ◌≡◌, ◌↔◌, refl, sym, arith, some, length, take, drop, leb, ◌==◌, ==_refl,
  if◌then◌else◌, ok, err, ◌>>=◌, bind_ok, assert_ok, assert, expect, expect-eq-ok,
  slice_out_of_range, not_signed_by_sequencer, ap, ◌∙◌, arithmetic_overflow,
  signature_not_recovered, ethereum_hash_mismatch_linea, Bool-cases, inl, inr,
}
use malda_lending_fuzz.Bytes.{Bytes, Address, B256, slice, sub_uint}
use malda_lending_fuzz.Bytes.Laws.{slice-eq-ok, sub_uint-eq-ok}
use malda_lending_fuzz.Externals.{Externals, eth, eth_mainnet_chain_spec}
use malda_lending_fuzz.Types.Contracts.{current_l2_block_number}
use malda_lending_fuzz.Cryptography.{recover_signer, signature_from_bytes}
use malda_lending_fuzz.Validators.Linea.{
  expected_sequencer, message_service, validate_linea_env, validate_linea_env_with_l1_inclusion,
}
use native.Mathlib.Nat.{sub-zero}

module _ (X : Externals) where
  -- The extra data ends in 65 signature bytes, which recover the chain's sequencer over the hash of
  -- the header without them.
  pub record Sealed (chain_id : ℕ) (header : X.Header) : Type 0 where
    pub long : 65 ≤ length (X.extra_data header)
    pub signature : X.Signature
    pub sequencer : Address
    pub known : expected_sequencer chain_id ≡ ok sequencer
    pub parsed :
        signature_from_bytes X
          (take 65 (drop (length (X.extra_data header) - 65) (X.extra_data header)))
        ≡ ok signature
    pub signed :
        recover_signer X signature (
          X.hash_slow (
            X.with_extra_data
              (take (length (X.extra_data header) - 65) (X.extra_data header))
              header))
        ≡ ok (some sequencer)

  -- A header whose extra data is shorter than a signature makes `validate_linea_env` panic: for the
  -- arithmetic where overflow is checked, for the slice where it wraps.
  pub validate_linea_env_short :
      (chain_id : ℕ) (header : X.Header)
      → 65 < 2 ^ X.usize_bits
      → length (X.extra_data header) < 65
      → validate_linea_env X chain_id header
        ≡ err (if X.overflow_checks then arithmetic_overflow else slice_out_of_range)
  unfolding validate_linea_env sub_uint slice
  validate_linea_env_short chain_id header wide short = ground arith

  split_extra :
      (extra : Bytes)
      → 65 ≤ length extra
      → (sub_uint X.overflow_checks X.usize_bits (length extra) 65 ≡ ok (length extra - 65))
        × (slice extra 0 (length extra - 65) ≡ ok (take (length extra - 65) extra))
        × (slice extra (length extra - 65) (length extra)
            ≡ ok (take 65 (drop (length extra - 65) extra)))
  split_extra extra long = (
    sub_uint-eq-ok X.overflow_checks X.usize_bits (length extra) 65 long,
    rw (sub-zero) at (slice-eq-ok extra 0 (length extra - 65) (omega arith) (omega arith)),
    rw width at (slice-eq-ok extra (length extra - 65) (length extra) (omega arith) (omega arith)),
  )
    where
      width : length extra - (length extra - 65) ≡ 65
      width = omega arith

  -- The checks on a header whose extra data is long enough.
  pub validate_linea_env_step :
      (chain_id : ℕ) (header : X.Header)
      → 65 ≤ length (X.extra_data header)
      → validate_linea_env X chain_id header ≡ (do
        sig ←
            signature_from_bytes X
              (take 65 (drop (length (X.extra_data header) - 65) (X.extra_data header)))
        recovered ← recover_signer X sig (
            X.hash_slow (
              X.with_extra_data
                (take (length (X.extra_data header) - 65) (X.extra_data header))
                header))
        sequencer ← expect recovered signature_not_recovered
        expected ← expected_sequencer chain_id
        assert (sequencer == expected) not_signed_by_sequencer)
  unfolding validate_linea_env
  validate_linea_env_step chain_id header long =
      let (e₁, e₂, e₃) = split_extra (X.extra_data header) long in rw (e₁, e₂, e₃) refl

  validate_linea_env_sound :
      (chain_id : ℕ) (header : X.Header)
      → 65 ≤ length (X.extra_data header)
      → validate_linea_env X chain_id header ≡ ok tt
      → Sealed chain_id header
  validate_linea_env_sound chain_id header long h =
      bind_ok
        (signature_from_bytes X
          (take 65 (drop (length (X.extra_data header) - 65) (X.extra_data header))))
        _ (sym (validate_linea_env_step chain_id header long) ∙ h)
        λ signature parsed h₁.
          bind_ok
            (recover_signer X signature (
              X.hash_slow (
                X.with_extra_data (take (length (X.extra_data header) - 65) (X.extra_data header))
                  header)))
            _ h₁
            λ recovered tried h₂.
              bind_ok (expect recovered signature_not_recovered) _ h₂ λ sequencer found h₃.
                bind_ok (expected_sequencer chain_id) _ h₃ λ expected known h₄. record {
                  long = long;
                  signature = signature;
                  sequencer = expected;
                  known = known;
                  parsed = parsed;
                  signed =
                      tried
                      ∙ ap ok (expect-eq-ok recovered signature_not_recovered found)
                      ∙ ap (λ (a : Address). ok (some a)) (ground arith);
                }

  pub validate_linea_env_complete :
      (chain_id : ℕ) (header : X.Header)
      → Sealed chain_id header
      → validate_linea_env X chain_id header ≡ ok tt
  validate_linea_env_complete chain_id header s =
      validate_linea_env_step chain_id header s.long
      ∙ rw (s.parsed, s.signed, s.known, ==_refl) refl

  -- Where `usize` holds 65, `validate_linea_env` accepts exactly the headers that the sequencer of
  -- the Linea chain has sealed.
  pub validate_linea_env_iff :
      (chain_id : ℕ) (header : X.Header)
      → 65 < 2 ^ X.usize_bits
      → (validate_linea_env X chain_id header ≡ ok tt) ↔ Sealed chain_id header
  validate_linea_env_iff chain_id header wide = (
    λ h. elim (Bool-cases (leb 65 (length (X.extra_data header)))) [
      | inl long ↦ validate_linea_env_sound chain_id header (ground arith) h
      | inr short ↦ absurd (cc (validate_linea_env_short chain_id header wide (ground arith)))
    ],
    validate_linea_env_complete chain_id header,
  )

  -- With L1 inclusion a Linea block number is accepted exactly where the Ethereum environment is
  -- that of the validated hash and the chain's message service there has a block number that is no
  -- lower. The hash of the Linea block plays no part.
  pub validate_linea_env_with_l1_inclusion_iff :
      (chain_id env_block_number : ℕ) (env_eth_input : X.EvmInput eth) (ethereum_hash : B256)
      → (validate_linea_env_with_l1_inclusion X chain_id env_block_number env_eth_input
            ethereum_hash
          ≡ ok tt)
        ↔ ((service : Address) × (env_eth : X.EvmEnv eth) × (l2_block_number : ℕ) × (message_service
                chain_id
              ≡ ok service)
            × (X.into_env eth env_eth_input eth_mainnet_chain_spec ≡ ok env_eth)
            × (ethereum_hash ≡ X.env_seal env_eth)
            × (X.call eth env_eth service current_l2_block_number ≡ ok l2_block_number)
            × (env_block_number ≤ l2_block_number))
  unfolding validate_linea_env_with_l1_inclusion
  validate_linea_env_with_l1_inclusion_iff chain_id env_block_number env_eth_input ethereum_hash = (
    λ h. bind_ok (message_service chain_id) _ h λ service known h₁.
        bind_ok (X.into_env eth env_eth_input eth_mainnet_chain_spec) _ h₁ λ env_eth built h₂.
          assert_ok (ethereum_hash == X.env_seal env_eth) ethereum_hash_mismatch_linea _ h₂
            λ same h₃.
              bind_ok (X.call eth env_eth service current_l2_block_number) _ h₃ λ number read h₄.
                (service, env_eth, number, known, built, ground arith, read, ground arith),
    λ (service, env_eth, number, known, built, same, read, low).
        rw (known, built, same, ==_refl, read) (ground arith),
  )
