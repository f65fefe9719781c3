-- ===== src/Fuzz/Commitment.antt =====
-- crates/fuzz/src/sequencer_commitment.rs and sequencer_commitment_roundtrip.rs: the parser of
-- sequencer commitments, on any bytes and on the compression of what a key has signed.
pub mod Parsed
use malda_lending_fuzz.Prelude.{
  ℕ, zero, suc, Bool, true, false, ◌&&◌, List, [], ◌∷◌, ◌++◌, ◌==◌, Outcome, ok, err, ◌>>=◌, ◌>>◌,
  assert, expect_ok, unwrap_err, data_mismatch, signature_r_mismatch, signature_s_mismatch,
}
use malda_lending_fuzz.Bytes.{Bytes, to_be_bytes}
use malda_lending_fuzz.Externals.{Externals}
use malda_lending_fuzz.Types.Commitment.{new}
use malda_lending_fuzz.Cryptography.{signature_msg}
use malda_lending_fuzz.Fuzz.{Tools, signed_bytes}

-- `==` on byte strings.
unfoldable pub bytes_eq : Bytes → Bytes → Bool
bytes_eq [] [] = true
bytes_eq (x ∷ xs) (y ∷ ys) = (x == y) && bytes_eq xs ys
bytes_eq _ _ = false

-- `[b; n]`
unfoldable pub repeated : ℕ → ℕ → Bytes
repeated b zero = []
repeated b (suc n) = b ∷ repeated b n

module _ (X : Externals) where
  -- The target of sequencer_commitment.rs.
  unfoldable pub fuzz_new : Bytes → Outcome (Unit {0})
  fuzz_new input = do _ ← new X input; ok tt

module _ {X : Externals} (T : Tools X) where
  -- The target of sequencer_commitment_roundtrip.rs.
  unfoldable pub fuzz_roundtrip : (payload : Bytes) → (chain_id : ℕ) → Outcome (Unit {0})
  fuzz_roundtrip payload chain_id = do
    let sighash = signature_msg X payload chain_id
    signing_key ← expect_ok (T.key_from_slice (repeated 42 32)) unwrap_err
    (signature, recovery_id) ←
        expect_ok (T.sign_prehash_recoverable signing_key (to_be_bytes 32 sighash)) unwrap_err
    let decompressed = signed_bytes T signature recovery_id ++ payload
    compressed ← expect_ok (T.compress_vec decompressed) unwrap_err
    parsed ← new X compressed
    elim parsed [
      | err _ ↦ ok tt
      | ok commitment ↦ do
        assert (bytes_eq commitment.bytes payload) data_mismatch
        assert (X.signature_r commitment.signature == T.r signature) signature_r_mismatch
        assert (X.signature_s commitment.signature == T.s signature) signature_s_mismatch
    ]
