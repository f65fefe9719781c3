-- ===== src/Cryptography.antt =====
-- crates/malda_utils/src/cryptography.rs: the message that a sequencer signs, and the recovery of
-- the signer.
pub mod Laws
pub mod Signed
use malda_lending_fuzz.Prelude.{
  ℕ, ◌++◌, ◌∷◌, [], Bool, true, false, Option, none, some, ltb, ◌==◌, if◌then◌else◌, length,
  bit_xor, Result, ok, err, ◌>>=◌, ◌>>◌, Outcome, Report, assert, expect, to_option,
  invalid_signature_length, recovery_id_invalid,
}
use malda_lending_fuzz.Bytes.{Bytes, Address, B256, to_be_bytes, from_be_bytes, slice}
use malda_lending_fuzz.Constants.{secp256k1n_half}
use malda_lending_fuzz.Externals.{Externals}

-- The 96 bytes that are hashed: a zero domain, the chain identifier padded to 32 bytes, and the
-- hash of the payload.
unfoldable pub signing_data : B256 → ℕ → Bytes
signing_data payload_hash chain_id =
    to_be_bytes 32 0 ++ (to_be_bytes 32 chain_id ++ to_be_bytes 32 payload_hash)

abbrev byte_of_bool : Bool → ℕ
byte_of_bool true = 1
byte_of_bool false = 0

module _ (X : Externals) where
  unfoldable pub signature_msg : Bytes → ℕ → B256
  signature_msg bytes chain_id = X.keccak256 (signing_data (X.keccak256 bytes) chain_id)

  -- The signature that recovery goes on with, and its recovery byte: normalised, with the byte
  -- flipped, where `normalize_s` changes it.
  unfoldable pub normalized : X.EcdsaSignature → ℕ → X.EcdsaSignature × ℕ
  normalized signature recid = elim (X.normalize_s signature) [
    | none ↦ (signature, recid)
    | some sig_normalized ↦ (sig_normalized, bit_xor recid 1)
  ]

  -- What follows the parse of r and s. The inner result is Rust's: `?` passes an error of k256 on.
  -- The outer one is the panic of `expect` on the recovery identifier.
  recover_parsed : Result Report X.EcdsaSignature → ℕ → Bytes → Outcome (Result Report Address)
  recover_parsed (err e) v msg = ok (err e)
  recover_parsed (ok signature) v msg = do
    let n = normalized signature v
    recid ← expect (X.recovery_id_from_byte n.1) recovery_id_invalid
    ok (do key ← X.key_recover_from_prehash msg n.0 recid; ok (X.address_from_public_key key))

  unfoldable pub recover_signer_unchecked : Bytes → Bytes → Outcome (Result Report Address)
  unfolding recover_parsed
  recover_signer_unchecked sig msg = do
    rs ← slice sig 0 64
    v ← slice sig 64 65
    recover_parsed (X.ecdsa_from_slice rs) (from_be_bytes v) msg

  -- The 65 bytes r, s and v of a signature.
  unfoldable pub signature_bytes : X.Signature → Bytes
  signature_bytes signature =
      to_be_bytes 32 (X.signature_r signature)
      ++ (to_be_bytes 32 (X.signature_s signature) ++ (byte_of_bool (X.signature_v signature) ∷ []))

  unfoldable pub recover_signer : X.Signature → B256 → Outcome (Option Address)
  recover_signer signature sighash =
      if ltb secp256k1n_half (X.signature_s signature) then ok none else do
        r ← recover_signer_unchecked (signature_bytes signature) (to_be_bytes 32 sighash)
        ok (to_option r)

  unfoldable pub signature_from_bytes : Bytes → Outcome X.Signature
  signature_from_bytes signature = do
    assert (length signature == 65) invalid_signature_length
    r ← slice signature 0 32
    s ← slice signature 32 64
    v ← slice signature 64 65
    ok (X.signature_new (from_be_bytes r) (from_be_bytes s) (from_be_bytes v == 1))
