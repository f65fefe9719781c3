-- ===== src/Types/Commitment.antt =====
-- The sequencer commitment of types.rs: parsing, verification, and the payload that it carries.
use malda_lending_fuzz.Prelude.{
  ℕ, ◌==◌, if◌then◌else◌, length, Result, ok, err, ◌>>=◌, Outcome, Report, invalid_signer,
  decode_failed,
}
use malda_lending_fuzz.Bytes.{Bytes, Address, slice}
use malda_lending_fuzz.Externals.{Externals}
use malda_lending_fuzz.Types.Payload.{ExecutionPayload}
use malda_lending_fuzz.Cryptography.{signature_msg}

pub record SequencerCommitment (X : Externals) : Type 0 where
  pub bytes : Bytes
  pub signature : X.Signature

module _ (X : Externals) where
  -- `SequencerCommitment::new`. The slices panic where the decompressed bytes are too short.
  unfoldable pub new : Bytes → Outcome (Result Report (SequencerCommitment X))
  new compressed = elim (X.decompress_vec compressed) [
    | err e ↦ ok (err e)
    | ok decompressed ↦ do
      head ← slice decompressed 0 65
      elim (X.signature_try_from head) [
        | err e ↦ ok (err e)
        | ok signature ↦ do
          rest ← slice decompressed 65 (length decompressed)
          ok (ok (record { bytes = rest; signature = signature }))
      ]
  ]

  unfoldable pub verify : SequencerCommitment X → Address → ℕ → Result Report (Unit {0})
  verify c signer chain_id = do
    let msg = signature_msg X c.bytes chain_id
    pk ← X.signature_recover_from_prehash c.signature msg
    let recovered_signer = X.address_from_public_key pk
    if signer == recovered_signer then ok tt else err invalid_signer

  -- `ExecutionPayload::try_from`. The slice panics where the data is shorter than 32 bytes.
  unfoldable pub try_from : SequencerCommitment X → Outcome (Result Report ExecutionPayload)
  try_from c = do
    payload_bytes ← slice c.bytes 32 (length c.bytes)
    elim (X.from_ssz_bytes payload_bytes) [
      | err _ ↦ ok (err decode_failed)
      | ok payload ↦ ok (ok payload)
    ]
