-- ===== src/Tests/Signing.antt =====
-- A second small world, for the fuzz targets: a header is its extra data, alloy reads r and s where
-- they stand, and compression leaves the bytes.
use malda_lending_fuzz.Prelude.{
  ℕ, ◌+◌, ◌-◌, ◌^◌, ◌%◌, ◌<◌, ◌≡◌, refl, sym, ap, ◌∙◌, arith, Bool, true, false, none, some, [],
  ◌∷◌, ◌++◌, take, drop, take-append, drop-append, ltb, if◌then◌else◌, ok, err, library_error,
  library_panic, ok_unique,
}
use malda_lending_fuzz.Bytes.{Bytes, U256, to_be_bytes, from_be_bytes}
use malda_lending_fuzz.Bytes.Laws.{length-to_be_bytes, from_be_bytes-to_be_bytes}
use malda_lending_fuzz.Constants.{linea_sequencer}
use malda_lending_fuzz.Externals.{Externals, IsLawful}
use malda_lending_fuzz.Fuzz.{Tools, AreLawful}
use native.Mathlib.Nat.{mod-eq_of_lt}

abbrev pub signing : Externals
signing = record {
  overflow_checks = true;
  usize_bits = 64;
  keccak256 = from_be_bytes;
  hex_encode = λ _. "";
  Header = Bytes;
  parent_hash = λ _. 0;
  number = λ _. 0;
  timestamp = λ _. 0;
  extra_data = λ h. h;
  with_extra_data = λ b _. b;
  hash_slow = from_be_bytes;
  abi_decode_amounts = λ _. ok (0, 0);
  abi_encode_journal = λ _. [];
  u256_sub = λ a b. (a + 2 ^ 256 - b) % 2 ^ 256;
  Signature = record { r : ℕ; s : ℕ; v : Bool };
  signature_new = λ r s v. record { r = r; s = s; v = v };
  signature_r = λ g. g.r;
  signature_s = λ g. g.s;
  signature_v = λ g. g.v;
  signature_try_from = λ b. ok (record {
    r = from_be_bytes (take 32 b);
    s = from_be_bytes (take 32 (drop 32 b));
    v = false;
  });
  PublicKey = ℕ;
  signature_recover_from_prehash = λ _ _. ok 0;
  address_from_public_key = λ key. key;
  EcdsaSignature = Unit {0};
  ecdsa_from_slice = λ _. ok tt;
  normalize_s = λ _. none;
  RecoveryId = ℕ;
  recovery_id_from_byte = λ b. if ltb b 4 then some b else none;
  key_recover_from_prehash = λ _ _ _. ok linea_sequencer;
  decompress_vec = λ b. ok b;
  from_ssz_bytes = λ _. err library_error;
  EvmInput = λ _. ℕ;
  EvmEnv = λ _. ℕ;
  into_env = λ _ n _. ok n;
  env_header = λ _. [];
  env_seal = λ n. n;
  Commitment = ℕ;
  env_commitment = λ _ n. n;
  decode_id = λ c. (c, 2);
  digest = λ c. c;
  call = λ _ _ _ _. err library_panic;
}

pub signing-IsLawful : IsLawful signing
signing-IsLawful = record {
  r-new = λ r s v. refl;
  s-new = λ r s v. refl;
  v-new = λ r s v. refl;
  recovery_ids = λ b h. ground arith;
  sub_wraps = λ a b. refl;
}

abbrev pub tools : Tools signing
tools = record {
  SigningKey = Bytes;
  key_from_slice = λ b. ok b;
  sign_prehash_recoverable = λ _ _. ok (tt, 1);
  r = λ _. 7;
  s = λ _. 8;
  to_byte = λ id. id % 4;
  compress_vec = λ b. ok b;
  header_of = λ _ _ extra. extra;
}

take-32 : (r : U256) (rest : Bytes) → take 32 (to_be_bytes 32 r ++ rest) ≡ to_be_bytes 32 r
take-32 r rest = rw (length-to_be_bytes) at (take-append (to_be_bytes 32 r) rest)

drop-32 : (r : U256) (rest : Bytes) → drop 32 (to_be_bytes 32 r ++ rest) ≡ rest
drop-32 r rest = rw (length-to_be_bytes) at (drop-append (to_be_bytes 32 r) rest)

read : (n : U256) → n < 2 ^ 256 → from_be_bytes (to_be_bytes 32 n) ≡ n
read n fits = from_be_bytes-to_be_bytes 32 n ∙ mod-eq_of_lt fits

pub tools-AreLawful : AreLawful signing tools
tools-AreLawful = record {
  r-lt = λ g. omega arith;
  s-lt = λ g. omega arith;
  to_byte-lt = λ id. omega arith;
  compresses = λ b small. (b, refl);
  decompresses = λ b c h. sym h;
  reads_parts = λ r s v g r_fits s_fits h.
      let rest = to_be_bytes 32 s ++ v ∷ [] in
      let front = ap from_be_bytes (take-32 r rest) ∙ read r r_fits in
      let back =
        ap (λ (t : Bytes). from_be_bytes (take 32 t)) (drop-32 r rest)
        ∙ ap from_be_bytes (take-32 s (v ∷ []))
        ∙ read s s_fits in
      let is = ok_unique h refl in
      (ap signing.signature_r is ∙ front, ap signing.signature_s is ∙ back);
  extra_data-of = λ parent_hash state_root extra. refl;
  extra_data-with = λ b h. refl;
  with-with = λ a b h. refl;
  with-extra_data = λ h. refl;
}
