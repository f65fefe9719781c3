-- ===== src/Fuzz.antt =====
-- crates/fuzz: the fuzz targets, as functions of their inputs. A panic is what the fuzzer reports.
pub mod Commitment
pub mod Collision
pub mod LineaHeader
use malda_lending_fuzz.Prelude.{ℕ, ◌<◌, ◌^◌, ◌≡◌, ◌++◌, ◌∷◌, [], length, Result, Report, ok}
use malda_lending_fuzz.Bytes.{Bytes, B256, U256, to_be_bytes}
use malda_lending_fuzz.Externals.{Externals}

-- The libraries that only the targets call: k256's signing keys, snap's encoder, and alloy's header
-- of which only the three fields that the fuzzer chooses are not zero or absent.
pub record Tools (X : Externals) : Type 1 where
  pub SigningKey : Type 0
  pub key_from_slice : Bytes → Result Report SigningKey
  pub sign_prehash_recoverable :
      SigningKey → Bytes → Result Report (X.EcdsaSignature × X.RecoveryId)
  pub r : X.EcdsaSignature → U256
  pub s : X.EcdsaSignature → U256
  pub to_byte : X.RecoveryId → ℕ
  pub compress_vec : Bytes → Result Report Bytes
  pub header_of : (parent_hash state_root : B256) → (extra_data : Bytes) → X.Header

-- Their documented behaviour: the parts of a signature are 32 bytes long, a recovery identifier is
-- below 4, snap compresses what is shorter than 2^32 bytes and decompresses it to what it was,
-- alloy's `Signature` reads r and s from the first 64 of its 65 bytes, and the extra data of a header
-- is a field.
pub record AreLawful (X : Externals) (T : Tools X) : Type 0 where
  pub r-lt : (g : X.EcdsaSignature) → T.r g < 2 ^ 256
  pub s-lt : (g : X.EcdsaSignature) → T.s g < 2 ^ 256
  pub to_byte-lt : (id : X.RecoveryId) → T.to_byte id < 4
  pub compresses : (b : Bytes) → length b < 2 ^ 32 → (c : Bytes) × (T.compress_vec b ≡ ok c)
  pub decompresses : (b c : Bytes) → T.compress_vec b ≡ ok c → X.decompress_vec c ≡ ok b
  pub reads_parts :
      (r s : U256) (v : ℕ) (g : X.Signature)
      → r < 2 ^ 256
      → s < 2 ^ 256
      → X.signature_try_from (to_be_bytes 32 r ++ (to_be_bytes 32 s ++ v ∷ [])) ≡ ok g
      → (X.signature_r g ≡ r) × (X.signature_s g ≡ s)
  pub extra_data-of :
      (parent_hash state_root : B256) (extra : Bytes)
      → X.extra_data (T.header_of parent_hash state_root extra) ≡ extra
  pub extra_data-with : (b : Bytes) (h : X.Header) → X.extra_data (X.with_extra_data b h) ≡ b
  pub with-with :
      (a b : Bytes) (h : X.Header)
      → X.with_extra_data a (X.with_extra_data b h) ≡ X.with_extra_data a h
  pub with-extra_data : (h : X.Header) → X.with_extra_data (X.extra_data h) h ≡ h

module _ {X : Externals} (T : Tools X) where
  -- `sigbytes` and `signature_bytes`: r, s and the recovery byte, each copied to its place.
  unfoldable pub signed_bytes : X.EcdsaSignature → X.RecoveryId → Bytes
  signed_bytes signature recovery_id =
      to_be_bytes 32 (T.r signature)
      ++ (to_be_bytes 32 (T.s signature) ++ T.to_byte recovery_id ∷ [])
