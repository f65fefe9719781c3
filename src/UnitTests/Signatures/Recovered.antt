-- ===== src/UnitTests/Signatures/Recovered.antt =====
-- What the unit tests of the signatures depend on.
use malda_lending_fuzz.Prelude.{
  true, false, ◌∙◌, ℕ, ◌≤◌, ◌<◌, ◌+◌, ◌≡◌, ◌≢◌, refl, sym, ap, arith, some, none, [], ◌++◌, length,
  ltb, ◌==◌, ==_refl, ok,
}
use malda_lending_fuzz.Bytes.{Bytes, B256, to_be_bytes}
use malda_lending_fuzz.Bytes.Laws.{length-to_be_bytes}
use malda_lending_fuzz.Constants.{secp256k1n_half}
use malda_lending_fuzz.Externals.{Externals, IsLawful}
use malda_lending_fuzz.Cryptography.{
  signing_data, signature_msg, recover_signer, signature_from_bytes,
}
use malda_lending_fuzz.Cryptography.Laws.{length-signing_data}
use malda_lending_fuzz.Cryptography.Signed.{signature_from_bytes-parts, recover_signer-parts}
use malda_lending_fuzz.Fuzz.{Tools, AreLawful, signed_bytes}
use malda_lending_fuzz.UnitTests.Signatures.{
  assert_recovered, sign_and_recover, test_signature_msg_domain_separation, hello_small,
}

-- k256's documented behaviour: a signature is parsed from its r and s, and a signature that a key has
-- made is normalised, its recovery identifier is read back from its byte, and recovery over the signed
-- hash gives the key.
pub record KeysAreLawful {X : Externals} (T : Tools X) (verifying_key : T.SigningKey → X.PublicKey)
    : Type 0 where
  pub parsed :
      (g : X.EcdsaSignature)
      → X.ecdsa_from_slice (to_be_bytes 32 (T.r g) ++ to_be_bytes 32 (T.s g)) ≡ ok g
  pub identified :
      (key : T.SigningKey) (prehash : Bytes) (g : X.EcdsaSignature) (id : X.RecoveryId)
      → T.sign_prehash_recoverable key prehash ≡ ok (g, id)
      → X.recovery_id_from_byte (T.to_byte id) ≡ some id
  pub normal :
      (key : T.SigningKey) (prehash : Bytes) (g : X.EcdsaSignature) (id : X.RecoveryId)
      → T.sign_prehash_recoverable key prehash ≡ ok (g, id)
      → (X.normalize_s g ≡ none) × (T.s g ≤ secp256k1n_half)
  pub recovered :
      (key : T.SigningKey) (prehash : Bytes) (g : X.EcdsaSignature) (id : X.RecoveryId)
      → T.sign_prehash_recoverable key prehash ≡ ok (g, id)
      → X.key_recover_from_prehash prehash g id ≡ ok (verifying_key key)

module _ {X : Externals} (T : Tools X) (verifying_key : T.SigningKey → X.PublicKey)
    (lawful : IsLawful X) (tools : AreLawful X T) (keys : KeysAreLawful T verifying_key) where
  -- A signature over a hash, written as 65 bytes and parsed by `signature_from_bytes`, recovers by
  -- `recover_signer` to the address of the key that made it, where the recovery byte is 0 or 1, which
  -- is all that the parity of a `Signature` holds.
  pub recover_signer-signed_bytes :
      (key : T.SigningKey) (sighash : B256) (sig : X.EcdsaSignature) (recid : X.RecoveryId)
      → T.sign_prehash_recoverable key (to_be_bytes 32 sighash) ≡ ok (sig, recid)
      → T.to_byte recid < 2
      → (signature : X.Signature) × (signature_from_bytes X (signed_bytes T sig recid)
          ≡ ok signature)
        × (recover_signer X signature sighash
            ≡ ok (some (X.address_from_public_key (verifying_key key))))
  unfolding signed_bytes
  recover_signer-signed_bytes key sighash sig recid signed small =
      let r = T.r sig in
      let s = T.s sig in
      let v = T.to_byte recid in
      let prehash = to_be_bytes 32 sighash in
      let (normal, low) = keys.normal key prehash sig recid signed in
      (
        X.signature_new r s (v == 1),
        signature_from_bytes-parts X r s v (tools.r-lt sig) (tools.s-lt sig),
        recover_signer-parts X r s v sig recid (verifying_key key) sighash lawful small low
            (keys.parsed sig) normal (keys.identified key prehash sig recid signed)
            (keys.recovered key prehash sig recid signed),
      )

  -- The steps of `test_recover_signer` pass for every key that can be made and every message, where the
  -- key signs the message's hash with a recovery byte of 0 or 1.
  pub sign_and_recover_passes :
      (key_bytes message : Bytes) (key : T.SigningKey) (sig : X.EcdsaSignature)
      (recid : X.RecoveryId)
      → T.key_from_slice key_bytes ≡ ok key
      → T.sign_prehash_recoverable key (to_be_bytes 32 (X.keccak256 message)) ≡ ok (sig, recid)
      → T.to_byte recid < 2
      → sign_and_recover T verifying_key key_bytes message ≡ ok tt
  unfolding sign_and_recover assert_recovered recover_signer
  sign_and_recover_passes key_bytes message key sig recid made signed small =
      let (signature, parsed, recovered) =
        recover_signer-signed_bytes key (X.keccak256 message) sig recid signed small in
      let too_high : ltb secp256k1n_half (
            X.signature_s (
              X.signature_new (X.signature_r signature) (secp256k1n_half + 1)
                (X.signature_v signature)))
          ≡ true =
        rw lawful.s-new refl in
      rw
        (
          made,
          signed,
          parsed,
          recovered,
          ==_refl (X.address_from_public_key (verifying_key key)),
          too_high,
        )
        refl

-- The message that is signed is not the hash of its own payload, where the hash does not collide on
-- the payload and the 96 bytes that are hashed, and the payload is not 96 bytes long.
signature_msg-ne-keccak256 :
    (X : Externals) (bytes : Bytes) (chain_id : ℕ)
    → (X.keccak256 (signing_data (X.keccak256 bytes) chain_id) ≡ X.keccak256 bytes
        → signing_data (X.keccak256 bytes) chain_id ≡ bytes)
    → length bytes ≢ 96
    → signature_msg X bytes chain_id ≢ X.keccak256 bytes
unfolding signature_msg
signature_msg-ne-keccak256 X bytes chain_id no_collision short same =
    short (sym (ap (λ (b : Bytes). length b) (no_collision same)) ∙ length-signing_data _ _)

-- The test of the domain separation passes whatever is drawn, where the hash does not collide.
pub domain_separation_passes :
    (X : Externals) (random : B256)
    → ((a b : Bytes) → X.keccak256 a ≡ X.keccak256 b → a ≡ b)
    → test_signature_msg_domain_separation X random ≡ ok tt
unfolding test_signature_msg_domain_separation
domain_separation_passes X random no_collision =
    rw
      (
        apart [] (omega arith),
        apart hello_small (omega arith),
        apart (to_be_bytes 32 random) (omega (arith, length-to_be_bytes 32 random)),
      )
      refl
  where
    apart :
        (bytes : Bytes) → length bytes ≢ 96 → (signature_msg X bytes 1 == X.keccak256 bytes) ≡ false
    apart bytes short =
        let differ = signature_msg-ne-keccak256 X bytes 1 (no_collision _ _) short in ground arith
