-- ===== src/UnitTests/Signatures.antt =====
-- The unit tests of crates/malda_utils/src/cryptography.rs.
pub mod Recovered
use malda_lending_fuzz.Prelude.{
  ℕ, ◌+◌, Option, none, some, [], ◌∷◌, ◌==◌, if◌then◌else◌, Outcome, ok, err, ◌>>=◌, ◌>>◌,
  assert_ne, expect_ok, unwrap_err, assertion_failed,
}
use malda_lending_fuzz.Bytes.{Bytes, Address, B256, to_be_bytes}
use malda_lending_fuzz.Constants.{secp256k1n_half}
use malda_lending_fuzz.Externals.{Externals}
use malda_lending_fuzz.Cryptography.{signature_msg, recover_signer, signature_from_bytes}
use malda_lending_fuzz.Fuzz.{Tools, signed_bytes}

-- `b"Hello, World!"`, `b"hello world"` and `b"Test message"`.
abbrev pub hello_capital : Bytes
hello_capital = 72 ∷ 101 ∷ 108 ∷ 108 ∷ 111 ∷ 44 ∷ 32 ∷ 87 ∷ 111 ∷ 114 ∷ 108 ∷ 100 ∷ 33 ∷ []

abbrev pub hello_small : Bytes
hello_small = 104 ∷ 101 ∷ 108 ∷ 108 ∷ 111 ∷ 32 ∷ 119 ∷ 111 ∷ 114 ∷ 108 ∷ 100 ∷ []

abbrev pub test_message : Bytes
test_message = 84 ∷ 101 ∷ 115 ∷ 116 ∷ 32 ∷ 109 ∷ 101 ∷ 115 ∷ 115 ∷ 97 ∷ 103 ∷ 101 ∷ []

abbrev pub test_key : Bytes
test_key = to_be_bytes 32 0x0123456789abcdef0123456789abcdef0123456789abcdef0123456789abcdef

-- `assert_eq!` on what a recovery has given.
unfoldable pub assert_recovered : Option Address → Option Address → Outcome (Unit {0})
assert_recovered none none = ok tt
assert_recovered none (some b) = err assertion_failed
assert_recovered (some a) none = err assertion_failed
assert_recovered (some a) (some b) = if a == b then ok tt else err assertion_failed

module _ (X : Externals) where
  unfoldable pub test_signature_msg : Outcome (Unit {0})
  test_signature_msg = do
    assert_ne (signature_msg X hello_capital 1) 0
    assert_ne (signature_msg X [] 1) 0
    assert_ne (signature_msg X hello_capital 1) (signature_msg X hello_capital 2)

  -- `random` stands for `B256::random()`.
  unfoldable pub test_signature_msg_domain_separation : (random : B256) → Outcome (Unit {0})
  test_signature_msg_domain_separation random = do
    assert_ne (signature_msg X [] 1) (X.keccak256 [])
    assert_ne (signature_msg X hello_small 1) (X.keccak256 hello_small)
    assert_ne (signature_msg X (to_be_bytes 32 random) 1) (X.keccak256 (to_be_bytes 32 random))

module _ {X : Externals} (T : Tools X) (verifying_key : T.SigningKey → X.PublicKey) where
  -- The test's steps for any key and message.
  unfoldable pub sign_and_recover : (key message : Bytes) → Outcome (Unit {0})
  sign_and_recover key message = do
    signing_key ← expect_ok (T.key_from_slice key) unwrap_err
    let expected_address = X.address_from_public_key (verifying_key signing_key)
    let msg_hash = X.keccak256 message
    (sig, recid) ←
        expect_ok (T.sign_prehash_recoverable signing_key (to_be_bytes 32 msg_hash)) unwrap_err
    signature ← signature_from_bytes X (signed_bytes T sig recid)
    recovered_address ← recover_signer X signature msg_hash
    assert_recovered (some expected_address) recovered_address
    let invalid_sig =
        X.signature_new (X.signature_r signature) (secp256k1n_half + 1) (X.signature_v signature)
    recovered_invalid ← recover_signer X invalid_sig msg_hash
    assert_recovered none recovered_invalid

  unfoldable pub test_recover_signer : Outcome (Unit {0})
  unfolding sign_and_recover
  test_recover_signer = sign_and_recover test_key test_message
