-- ===== src/Fuzz/LineaHeader.antt =====
-- crates/fuzz/src/validate_linea_env.rs: a Linea header that a random key has signed.
pub mod Forged
use malda_lending_fuzz.Prelude.{
  ℕ, ◌++◌, ltb, length, if◌then◌else◌, Outcome, ok, err, ◌>>=◌, ◌>>◌, expect_ok, unwrap_err,
  forged_header_accepted,
}
use malda_lending_fuzz.Bytes.{Bytes, B256, to_be_bytes}
use malda_lending_fuzz.Constants.{linea_chain_id}
use malda_lending_fuzz.Externals.{Externals}
use malda_lending_fuzz.Validators.Linea.{validate_linea_env}
use malda_lending_fuzz.Fuzz.{Tools, signed_bytes}

pub record ArbitraryHeaderData : Type 0 where
  pub parent_hash : B256
  pub state_root : B256
  pub extra_data_prefix : Bytes

module _ {X : Externals} (T : Tools X) where
  unfoldable pub fuzz_header : ArbitraryHeaderData → X.Header
  fuzz_header input = T.header_of input.parent_hash input.state_root input.extra_data_prefix

  -- The header with the signature behind its extra data.
  unfoldable pub forged_header : ArbitraryHeaderData → X.EcdsaSignature → X.RecoveryId → X.Header
  forged_header input sig recovery_id =
      let header_to_sign = fuzz_header input in
      X.with_extra_data (X.extra_data header_to_sign ++ signed_bytes T sig recovery_id)
        header_to_sign

  -- `random` stands for `B256::random()`.
  unfoldable pub fuzz_linea_env : (random : B256) → ArbitraryHeaderData → Outcome (Unit {0})
  fuzz_linea_env random input = do
    random_attacker_key ← expect_ok (T.key_from_slice (to_be_bytes 32 random)) unwrap_err
    let sighash = X.hash_slow (fuzz_header input)
    (sig, recovery_id) ←
        expect_ok (T.sign_prehash_recoverable random_attacker_key (to_be_bytes 32 sighash))
          unwrap_err
    let forged = forged_header input sig recovery_id
    if ltb (length (X.extra_data forged)) 65
        then ok tt
        else (do validate_linea_env X linea_chain_id forged; err forged_header_accepted)
