-- ===== src/Cryptography/Signed.antt =====
-- The recovery of the signer of a normalised signature.
use malda_lending_fuzz.Prelude.{
  length, false, ℕ, ◌≤◌, ◌<◌, ◌≡◌, refl, arith, some, none, [], ◌∷◌, ◌++◌, ltb, ◌==◌, ok, ◌^◌,
}
use malda_lending_fuzz.Bytes.{B256, U256, to_be_bytes, from_be_bytes, slice}
use malda_lending_fuzz.Bytes.Laws.{length-to_be_bytes, from_be_bytes-to_be_bytes}
use malda_lending_fuzz.Constants.{secp256k1n_half}
use malda_lending_fuzz.Externals.{Externals, IsLawful}
use malda_lending_fuzz.Cryptography.{
  byte_of_bool, normalized, recover_parsed, recover_signer_unchecked, signature_bytes,
  recover_signer, signature_from_bytes,
}
use malda_lending_fuzz.Cryptography.Laws.{three_slices}
use native.Mathlib.Nat.{mod-eq_of_lt}

parity_byte : (v : ℕ) → v < 2 → byte_of_bool (v == 1) ≡ v
parity_byte v h = ground arith

from_one_byte : (v : ℕ) → from_be_bytes (v ∷ []) ≡ v
unfolding from_be_bytes
from_one_byte v = omega arith

normalized-none :
    (X : Externals) (g : X.EcdsaSignature) (v : ℕ)
    → X.normalize_s g ≡ none
    → normalized X g v ≡ (g, v)
unfolding normalized
normalized-none X g v normal = rw (normal, normalized) refl

module _ (X : Externals) (r s : U256) (v : ℕ) where
  parts :
      (slice (to_be_bytes 32 r ++ (to_be_bytes 32 s ++ v ∷ [])) 0 32 ≡ ok (to_be_bytes 32 r))
      × (slice (to_be_bytes 32 r ++ (to_be_bytes 32 s ++ v ∷ [])) 32 64 ≡ ok (to_be_bytes 32 s))
      × (slice (to_be_bytes 32 r ++ (to_be_bytes 32 s ++ v ∷ [])) 64 65 ≡ ok (v ∷ []))
      × (slice (to_be_bytes 32 r ++ (to_be_bytes 32 s ++ v ∷ [])) 0 64
          ≡ ok (to_be_bytes 32 r ++ to_be_bytes 32 s))
      × (length (to_be_bytes 32 r ++ (to_be_bytes 32 s ++ v ∷ [])) ≡ 65)
  parts =
      three_slices (to_be_bytes 32 r) (to_be_bytes 32 s) (v ∷ []) (length-to_be_bytes 32 r)
        (length-to_be_bytes 32 s) refl

  pub signature_from_bytes-parts :
      r < 2 ^ 256
      → s < 2 ^ 256
      → signature_from_bytes X (to_be_bytes 32 r ++ (to_be_bytes 32 s ++ v ∷ []))
        ≡ ok (X.signature_new r s (v == 1))
  unfolding signature_from_bytes
  signature_from_bytes-parts r_fits s_fits =
      let (r_slice, s_slice, v_slice, _, total) = parts in
      rw
        (
          total,
          r_slice,
          s_slice,
          v_slice,
          from_be_bytes-to_be_bytes,
          from_be_bytes-to_be_bytes,
          mod-eq_of_lt r_fits,
          mod-eq_of_lt s_fits,
          from_one_byte,
        )
        refl

  module _ (g : X.EcdsaSignature) (id : X.RecoveryId) (key : X.PublicKey) (sighash : B256) where
    pub recover_signer-parts :
        IsLawful X
        → v < 2
        → s ≤ secp256k1n_half
        → X.ecdsa_from_slice (to_be_bytes 32 r ++ to_be_bytes 32 s) ≡ ok g
        → X.normalize_s g ≡ none
        → X.recovery_id_from_byte v ≡ some id
        → X.key_recover_from_prehash (to_be_bytes 32 sighash) g id ≡ ok key
        → recover_signer X (X.signature_new r s (v == 1)) sighash
          ≡ ok (some (X.address_from_public_key key))
    unfolding recover_signer recover_signer_unchecked signature_bytes recover_parsed
    recover_signer-parts lawful small low parsed normal identified recovered =
        let (_, _, v_slice, rs_slice, _) = parts in
        let is_low : ltb secp256k1n_half s ≡ false = ground arith in
        rw
          (
            lawful.s-new,
            is_low,
            lawful.r-new,
            lawful.v-new,
            parity_byte v small,
            rs_slice,
            v_slice,
            parsed,
            from_one_byte,
            normalized-none X g v normal,
            identified,
            recovered,
          )
          refl
