-- ===== src/Fuzz/Commitment/Parsed.antt =====
-- Where the parser panics, and that it reads what a key has signed.
use malda_lending_fuzz.Prelude.{
  ℕ, ◌+◌, ◌-◌, ◌≤◌, ◌<◌, ◌^◌, ◌≡◌, ◌↔◌, refl, sym, arith, true, false, [], ◌∷◌, ◌++◌, take, drop,
  length, length-append, ==_refl, Result, Report, Panic, ok, err, Result-cases, Bool-cases, inl,
  inr, leb, slice_out_of_range,
}
use malda_lending_fuzz.Bytes.{Bytes, to_be_bytes, slice}
use malda_lending_fuzz.Bytes.Laws.{length-to_be_bytes, slice-append, slice-eq-ok}
use malda_lending_fuzz.Externals.{Externals}
use malda_lending_fuzz.Types.Commitment.{SequencerCommitment, new}
use malda_lending_fuzz.Cryptography.{signature_msg}
use malda_lending_fuzz.Fuzz.{Tools, AreLawful, signed_bytes}
use malda_lending_fuzz.Fuzz.Commitment.{bytes_eq, repeated, fuzz_new, fuzz_roundtrip}
use mathlib.Core.List.{append-nil}

module _ (X : Externals) where
  new_short :
      (compressed decompressed : Bytes)
      → X.decompress_vec compressed ≡ ok decompressed
      → length decompressed < 65
      → new X compressed ≡ err slice_out_of_range
  unfolding new slice
  new_short compressed decompressed e short =
      let refused : leb 65 (length decompressed) ≡ false = ground arith in rw (new, e, refused) refl

  -- A parse of 65 bytes or more gets as far as alloy's `Signature`.
  new_long :
      (compressed decompressed : Bytes)
      → X.decompress_vec compressed ≡ ok decompressed
      → 65 ≤ length decompressed
      → (parsed : Result Report (SequencerCommitment X)) × (new X compressed ≡ ok parsed)
  unfolding new
  new_long compressed decompressed e long =
      let head = slice-eq-ok decompressed 0 65 (omega arith) long in
      let rest = slice-eq-ok decompressed 65 (length decompressed) long (omega arith) in
      elim (Result-cases (X.signature_try_from (take 65 decompressed))) [
        | inl (signature, read) ↦ (
          ok (record {
            bytes = take (length decompressed - 65) (drop 65 decompressed);
            signature = signature;
          }),
          rw (new, e, head, read, rest) refl,
        )
        | inr (error, read) ↦ (err error, rw (new, e, head, read) refl)
      ]

  new_refused :
      (compressed : Bytes) (e : Report)
      → X.decompress_vec compressed ≡ err e
      → new X compressed ≡ ok (err e)
  unfolding new
  new_refused compressed e refused = rw (new, refused) refl

  -- The parser panics exactly where the decompressed bytes are fewer than a signature's 65; then for
  -- the slice. What does not decompress is an error that it returns.
  pub fuzz_new_iff :
      (input : Bytes) (p : Panic)
      → (fuzz_new X input ≡ err p) ↔ (
          (p ≡ slice_out_of_range)
          × (decompressed : Bytes) × (X.decompress_vec input ≡ ok decompressed)
          × (length decompressed < 65))
  unfolding fuzz_new
  fuzz_new_iff input p = (sound, complete)
    where
      sound :
          fuzz_new X input ≡ err p
          → (p ≡ slice_out_of_range)
            × (decompressed : Bytes) × (X.decompress_vec input ≡ ok decompressed)
            × (length decompressed < 65)
      sound h = elim (Result-cases (X.decompress_vec input)) [
        | inr (error, e) ↦ let parsed = new_refused input error e in absurd (cc)
        | inl (decompressed, e) ↦ elim (Bool-cases (leb 65 (length decompressed))) [
          | inl long ↦ let (_, parsed) = new_long input decompressed e (ground arith) in absurd (cc)
          | inr short ↦
              let small : length decompressed < 65 = ground arith in
              let panics = new_short input decompressed e small in (cc, decompressed, e, small)
        ]
      ]

      complete :
          ((p ≡ slice_out_of_range)
            × (decompressed : Bytes) × (X.decompress_vec input ≡ ok decompressed)
            × (length decompressed < 65))
          → fuzz_new X input ≡ err p
      complete (same, decompressed, e, short) = rw (same, new_short input decompressed e short) refl

pub bytes_eq_refl : (bytes : Bytes) → bytes_eq bytes bytes ≡ true
unfolding bytes_eq
bytes_eq_refl [] = refl
bytes_eq_refl (x ∷ xs) = rw (==_refl x, bytes_eq_refl xs) refl

module _ {X : Externals} (T : Tools X) (lawful : AreLawful X T) where
  pub length-signed_bytes :
      (g : X.EcdsaSignature) (id : X.RecoveryId) → length (signed_bytes T g id) ≡ 65
  unfolding signed_bytes
  length-signed_bytes g id = simp (length-append, length-to_be_bytes)

  signed_slices :
      (payload : Bytes) (g : X.EcdsaSignature) (id : X.RecoveryId)
      → (slice (signed_bytes T g id ++ payload) 0 65 ≡ ok (signed_bytes T g id))
        × (slice (signed_bytes T g id ++ payload) 65 (length (signed_bytes T g id ++ payload))
            ≡ ok payload)
  signed_slices payload g id =
      let long = length-signed_bytes g id in
      (
        slice-append [] (signed_bytes T g id) payload 0 65 refl (omega (arith, long)),
        rw append-nil at (
            slice-append (signed_bytes T g id) payload [] 65
              (length (signed_bytes T g id ++ payload)) long
              (sym (length-append (signed_bytes T g id) payload))),
      )

  -- Where alloy reads a signature from the 65 bytes of r, s and a recovery byte, the parser makes of
  -- these bytes before a payload, compressed, the commitment to that payload with that signature, and
  -- the signature has the same r and s.
  pub new-signed_bytes :
      (payload compressed : Bytes) (g : X.EcdsaSignature) (id : X.RecoveryId) (parsed : X.Signature)
      → T.compress_vec (signed_bytes T g id ++ payload) ≡ ok compressed
      → X.signature_try_from (signed_bytes T g id) ≡ ok parsed
      → (new X compressed ≡ ok (ok (record { bytes = payload; signature = parsed })))
        × (X.signature_r parsed ≡ T.r g)
        × (X.signature_s parsed ≡ T.s g)
  unfolding new
  new-signed_bytes payload compressed g id parsed packed read =
      let (head, rest) = signed_slices payload g id in
      let (same_r, same_s) =
        lawful.reads_parts (T.r g) (T.s g) (T.to_byte id) parsed (lawful.r-lt g) (lawful.s-lt g)
          (unfold signed_bytes in read) in
      (rw (new, lawful.decompresses _ compressed packed, head, read, rest) refl, same_r, same_s)

  new_not_read :
      (payload compressed : Bytes) (g : X.EcdsaSignature) (id : X.RecoveryId) (e : Report)
      → T.compress_vec (signed_bytes T g id ++ payload) ≡ ok compressed
      → X.signature_try_from (signed_bytes T g id) ≡ err e
      → new X compressed ≡ ok (err e)
  unfolding new
  new_not_read payload compressed g id e packed refused =
      let (head, _) = signed_slices payload g id in
      rw (new, lawful.decompresses _ compressed packed, head, refused) refl

  -- Where k256 takes the target's key and signs with it, no payload shorter than 2^32 - 65 bytes and
  -- no chain identifier makes the round trip of the target fail.
  pub fuzz_roundtrip_passes :
      (payload : Bytes) (chain_id : ℕ) (key : T.SigningKey) (g : X.EcdsaSignature)
      (id : X.RecoveryId)
      → 65 + length payload < 2 ^ 32
      → T.key_from_slice (repeated 42 32) ≡ ok key
      → T.sign_prehash_recoverable key (to_be_bytes 32 (signature_msg X payload chain_id))
        ≡ ok (g, id)
      → fuzz_roundtrip T payload chain_id ≡ ok tt
  unfolding fuzz_roundtrip
  fuzz_roundtrip_passes payload chain_id key g id small taken signs =
      let (compressed, packed) =
        lawful.compresses (signed_bytes T g id ++ payload)
          (omega (arith, length-append (signed_bytes T g id) payload, length-signed_bytes g id)) in
      elim (Result-cases (X.signature_try_from (signed_bytes T g id))) [
        | inl (parsed, read) ↦
            let (e, same_r, same_s) = new-signed_bytes payload compressed g id parsed packed read in
            rw
              (
                taken,
                signs,
                packed,
                e,
                bytes_eq_refl payload,
                same_r,
                same_s,
                ==_refl (T.r g),
                ==_refl (T.s g),
              )
              refl
        | inr (error, refused) ↦
            rw (taken, signs, packed, new_not_read payload compressed g id error packed refused)
              refl
      ]
