-- ===== src/Fuzz/LineaHeader/Forged.antt =====
-- What the target finds.
use malda_lending_fuzz.Prelude.{
  ℕ, ◌-◌, ◌≡◌, ◌≢◌, ◌↔◌, refl, sym, ap, ◌∙◌, arith, false, Option, none, some, [], ◌∷◌, ◌++◌,
  length, take, length-append, take-append, drop-append, ltb, ◌==◌, Outcome, ok, err, ◌>>=◌, ◌>>◌,
  forged_header_accepted, Bool-cases, inl, inr, ok_unique, expect, assert, signature_not_recovered,
  not_signed_by_sequencer,
}
use malda_lending_fuzz.Bytes.{Bytes, Address, B256, to_be_bytes, from_be_bytes}
use malda_lending_fuzz.Bytes.Laws.{length-to_be_bytes, from_be_bytes-to_be_bytes}
use malda_lending_fuzz.Constants.{linea_chain_id, linea_sequencer}
use malda_lending_fuzz.Externals.{Externals, IsLawful}
use malda_lending_fuzz.Cryptography.{recover_signer, signature_from_bytes}
use malda_lending_fuzz.Cryptography.Laws.{three_slices, recover_signer_total}
use malda_lending_fuzz.Validators.Linea.{expected_sequencer, validate_linea_env}
use malda_lending_fuzz.Validators.Linea.Laws.{validate_linea_env_step}
use malda_lending_fuzz.Fuzz.{Tools, AreLawful, signed_bytes}
use malda_lending_fuzz.Fuzz.Commitment.Parsed.{length-signed_bytes}
use malda_lending_fuzz.Fuzz.LineaHeader.{
  ArbitraryHeaderData, fuzz_header, forged_header, fuzz_linea_env,
}
use native.Mathlib.Nat.{mod-eq_of_lt}
use mathlib.Core.List.{append-nil}

from_byte : (b : ℕ) → from_be_bytes (b ∷ []) ≡ b
unfolding from_be_bytes
from_byte b = omega arith

module _ {X : Externals} (T : Tools X) (lawful : AreLawful X T) where
  signature_from_bytes-signed_bytes :
      (g : X.EcdsaSignature) (id : X.RecoveryId)
      → signature_from_bytes X (signed_bytes T g id)
        ≡ ok (X.signature_new (T.r g) (T.s g) (T.to_byte id == 1))
  unfolding signature_from_bytes signed_bytes
  signature_from_bytes-signed_bytes g id =
      let (r_slice, s_slice, v_slice, _, total) =
        three_slices (to_be_bytes 32 (T.r g)) (to_be_bytes 32 (T.s g)) (T.to_byte id ∷ [])
          (length-to_be_bytes 32 _) (length-to_be_bytes 32 _) refl in
      rw
        (
          total,
          r_slice,
          s_slice,
          v_slice,
          from_be_bytes-to_be_bytes 32 (T.r g),
          from_be_bytes-to_be_bytes 32 (T.s g),
          mod-eq_of_lt (lawful.r-lt g),
          mod-eq_of_lt (lawful.s-lt g),
          from_byte (T.to_byte id),
        )
        refl

  module _ (input : ArbitraryHeaderData) (g : X.EcdsaSignature) (id : X.RecoveryId) where
    forged-parts :
        (X.extra_data (forged_header T input g id) ≡ input.extra_data_prefix ++ signed_bytes T g id)
        × (X.with_extra_data input.extra_data_prefix (forged_header T input g id)
            ≡ fuzz_header T input)
    unfolding forged_header fuzz_header
    forged-parts =
        let own = lawful.extra_data-of input.parent_hash input.state_root input.extra_data_prefix in
        (
          lawful.extra_data-with _ _ ∙ ap (λ (b : Bytes). b ++ signed_bytes T g id) own,
          lawful.with-with _ _ _ ∙ rw own at (lawful.with-extra_data (fuzz_header T input)),
        )

    -- What the check on the forged header comes to.
    validate_linea_env-forged :
        validate_linea_env X linea_chain_id (forged_header T input g id) ≡ (do
          recovered ←
              recover_signer X
                (X.signature_new (T.r g) (T.s g) (T.to_byte id == 1))
                (X.hash_slow (fuzz_header T input))
          sequencer ← expect recovered signature_not_recovered
          assert (sequencer == linea_sequencer) not_signed_by_sequencer)
    unfolding expected_sequencer
    validate_linea_env-forged =
        let (extra, without) = forged-parts in
        let long = length-signed_bytes T lawful g id in
        let total = length-append input.extra_data_prefix (signed_bytes T g id) in
        let front : length (input.extra_data_prefix ++ signed_bytes T g id) - 65
            ≡ length input.extra_data_prefix =
          omega (arith, total, long) in
        let all : take 65 (signed_bytes T g id) ≡ signed_bytes T g id =
          rw (append-nil, long) at (take-append (signed_bytes T g id) []) in
        validate_linea_env_step X linea_chain_id (forged_header T input g id)
          (rw extra (omega (arith, total, long)))
        ∙ rw
            (
              extra,
              front,
              take-append input.extra_data_prefix (signed_bytes T g id),
              drop-append input.extra_data_prefix (signed_bytes T g id),
              all,
              signature_from_bytes-signed_bytes g id,
              without,
            )
            refl

    -- What the rest of the target gives for what is recovered.
    judge : Option Address → Outcome (Unit {0})
    judge recovered = do
      (do
        sequencer ← expect recovered signature_not_recovered
        assert (sequencer == linea_sequencer) not_signed_by_sequencer)
      err forged_header_accepted

    judge_iff :
        (recovered : Option Address)
        → (judge recovered ≢ ok tt)
          × ((judge recovered ≡ err forged_header_accepted) ↔ (recovered ≡ some linea_sequencer))
    unfolding judge
    judge_iff none = (λ h. cc, (λ h. absurd (cc), λ h. absurd (cc)))
    judge_iff (some a) = elim (Bool-cases (a == linea_sequencer)) [
      | inl same ↦ (
        λ h. absurd (cc (rw (judge, same) at h)),
        (λ h. ap some (ground arith), λ h. rw same refl),
      )
      | inr differs ↦ (
        λ h. absurd (cc (rw (judge, differs) at h)),
        (λ h. absurd (cc (rw (judge, differs) at h)), λ h. absurd (ground arith)),
      )
    ]

    fuzz_linea_env-judge :
        (random : B256) (key : T.SigningKey) (recovered : Option Address)
        → T.key_from_slice (to_be_bytes 32 random) ≡ ok key
        → T.sign_prehash_recoverable key (to_be_bytes 32 (X.hash_slow (fuzz_header T input)))
          ≡ ok (g, id)
        → recover_signer X
            (X.signature_new (T.r g) (T.s g) (T.to_byte id == 1))
            (X.hash_slow (fuzz_header T input))
          ≡ ok recovered
        → fuzz_linea_env T random input ≡ judge recovered
    unfolding fuzz_linea_env judge
    fuzz_linea_env-judge random key recovered taken signs found =
        let (extra, _) = forged-parts in
        let long = length-signed_bytes T lawful g id in
        let total = length-append input.extra_data_prefix (signed_bytes T g id) in
        let passes : ltb (length (X.extra_data (forged_header T input g id))) 65 ≡ false =
          rw extra (ground (arith, total, long)) in
        rw (taken, signs, passes, validate_linea_env-forged, found) refl

    -- Where k256 takes the random key and signs with it, the target never returns: it panics for the
    -- accepted forgery exactly if the signature recovers the Linea sequencer over the header's hash,
    -- and ends in another error otherwise.
    pub fuzz_linea_env_iff :
        (random : B256) (key : T.SigningKey)
        → IsLawful X
        → T.key_from_slice (to_be_bytes 32 random) ≡ ok key
        → T.sign_prehash_recoverable key (to_be_bytes 32 (X.hash_slow (fuzz_header T input)))
          ≡ ok (g, id)
        → (fuzz_linea_env T random input ≢ ok tt)
          × ((fuzz_linea_env T random input ≡ err forged_header_accepted) ↔ (
              recover_signer X
                (X.signature_new (T.r g) (T.s g) (T.to_byte id == 1))
                (X.hash_slow (fuzz_header T input))
              ≡ ok (some linea_sequencer)))
    fuzz_linea_env_iff random key libraries taken signs =
        let (recovered, found, _) =
          recover_signer_total X (X.signature_new (T.r g) (T.s g) (T.to_byte id == 1))
            (X.hash_slow (fuzz_header T input)) libraries in
        let e = fuzz_linea_env-judge random key recovered taken signs found in
        let (never, accepts) = judge_iff recovered in
        (
          λ h. never (sym e ∙ h),
          (λ h. found ∙ ap ok (accepts.0 (sym e ∙ h)), λ h. e ∙ accepts.1 (ok_unique found h)),
        )
