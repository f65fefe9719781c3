-- ===== src/Cryptography/Laws.antt =====
-- What a signed message determines, and what a recovered signer stands for.
use malda_lending_fuzz.Prelude.{
  ℕ, ◌^◌, ◌≤◌, ◌<◌, ◌≡◌, refl, sym, ap, ◌∙◌, arith, Bool, true, false, Option, none, List, [], ◌∷◌,
  ◌++◌, length, length-append, ltb, ◌==◌, Result, Report, ok, err, ◌>>=◌, to_option, Option-cases,
  Bool-cases, ◌⊎◌, inl, inr,
}
use malda_lending_fuzz.Bytes.{Bytes, Address, B256, to_be_bytes, from_be_bytes, slice}
use malda_lending_fuzz.Bytes.Laws.{length-to_be_bytes, from_be_bytes-to_be_bytes, slice-append}
use malda_lending_fuzz.Constants.{secp256k1n_half}
use malda_lending_fuzz.Externals.{Externals, IsLawful}
use malda_lending_fuzz.Cryptography.{
  signing_data, signature_msg, byte_of_bool, normalized, recover_parsed, recover_signer_unchecked,
  signature_bytes, recover_signer, signature_from_bytes,
}
use native.Mathlib.Nat.{mod-eq_of_lt}
use mathlib.Core.List.{append-nil, append_assoc}

append-injective :
    {A : Type 0} (xs ys us vs : List A)
    → length xs ≡ length ys
    → xs ++ us ≡ ys ++ vs
    → (xs ≡ ys) × (us ≡ vs)
append-injective [] [] us vs same e = (refl, e)
append-injective [] (y ∷ ys) us vs same e = absurd (omega arith)
append-injective (x ∷ xs) [] us vs same e = absurd (omega arith)
append-injective (x ∷ xs) (y ∷ ys) us vs same e =
    let (tails, rest) = append-injective xs ys us vs (omega arith) (ground arith) in
    (ground arith, rest)

pub to_be_bytes-injective :
    (width a b : ℕ)
    → a < 256 ^ width
    → b < 256 ^ width
    → to_be_bytes width a ≡ to_be_bytes width b
    → a ≡ b
to_be_bytes-injective width a b ha hb e =
    sym (mod-eq_of_lt ha)
    ∙ sym (from_be_bytes-to_be_bytes width a)
    ∙ ap from_be_bytes e
    ∙ from_be_bytes-to_be_bytes width b
    ∙ mod-eq_of_lt hb

pub length-signing_data : (h : B256) (c : ℕ) → length (signing_data h c) ≡ 96
unfolding signing_data
length-signing_data h c = simp (length-append, length-to_be_bytes)

signing_data-injective :
    (h₁ h₂ : B256) (c₁ c₂ : ℕ)
    → h₁ < 2 ^ 256
    → h₂ < 2 ^ 256
    → c₁ < 2 ^ 64
    → c₂ < 2 ^ 64
    → signing_data h₁ c₁ ≡ signing_data h₂ c₂
    → (h₁ ≡ h₂) × (c₁ ≡ c₂)
unfolding signing_data
signing_data-injective h₁ h₂ c₁ c₂ fits₁ fits₂ small₁ small₂ e =
    let behind = (append-injective (to_be_bytes 32 0) (to_be_bytes 32 0) _ _ refl e).1 in
    let parts =
      append-injective (to_be_bytes 32 c₁) (to_be_bytes 32 c₂) _ _
        (length-to_be_bytes 32 c₁ ∙ sym (length-to_be_bytes 32 c₂)) behind in
    (
      to_be_bytes-injective 32 h₁ h₂ fits₁ fits₂ parts.1,
      to_be_bytes-injective 32 c₁ c₂ (omega arith) (omega arith) parts.0,
    )

pub three_slices :
    (r s v : Bytes)
    → length r ≡ 32
    → length s ≡ 32
    → length v ≡ 1
    → (slice (r ++ (s ++ v)) 0 32 ≡ ok r)
      × (slice (r ++ (s ++ v)) 32 64 ≡ ok s)
      × (slice (r ++ (s ++ v)) 64 65 ≡ ok v)
      × (slice (r ++ (s ++ v)) 0 64 ≡ ok (r ++ s))
      × (length (r ++ (s ++ v)) ≡ 65)
three_slices r s v hr hs hv = (
  slice-append [] r (s ++ v) 0 32 refl (omega arith),
  slice-append r s v 32 64 hr (omega arith),
  rw (append-nil, append_assoc r s v) at
      (slice-append (r ++ s) v [] 64 65 both (omega (arith, both))),
  rw (append_assoc r s v) at (slice-append [] (r ++ s) v 0 64 refl (omega (arith, both))),
  omega (arith, length-append r (s ++ v), length-append s v),
)
  where
    both : length (r ++ s) ≡ 64
    both = omega (arith, length-append r s)

parity : (v : Bool) → (from_be_bytes (byte_of_bool v ∷ []) == 1) ≡ v
unfolding from_be_bytes
parity true = refl
parity false = refl

module _ (X : Externals) where
  signature_parts :
      (g : X.Signature)
      → (slice (signature_bytes X g) 0 32 ≡ ok (to_be_bytes 32 (X.signature_r g)))
        × (slice (signature_bytes X g) 32 64 ≡ ok (to_be_bytes 32 (X.signature_s g)))
        × (slice (signature_bytes X g) 64 65 ≡ ok (byte_of_bool (X.signature_v g) ∷ []))
        × (slice (signature_bytes X g) 0 64
            ≡ ok (to_be_bytes 32 (X.signature_r g) ++ to_be_bytes 32 (X.signature_s g)))
        × (length (signature_bytes X g) ≡ 65)
  unfolding signature_bytes
  signature_parts g =
      three_slices (to_be_bytes 32 (X.signature_r g)) (to_be_bytes 32 (X.signature_s g))
        (byte_of_bool (X.signature_v g) ∷ []) (length-to_be_bytes 32 _) (length-to_be_bytes 32 _)
        refl

  -- Where the hash collides neither on the two payloads nor on the two 96-byte messages, and its
  -- values are 256-bit words, two payloads and chain identifiers of 64 bits that give the same
  -- message to sign are the same.
  pub signature_msg-injective :
      (bytes₁ bytes₂ : Bytes) (chain₁ chain₂ : ℕ)
      → X.keccak256 bytes₁ < 2 ^ 256
      → X.keccak256 bytes₂ < 2 ^ 256
      → (X.keccak256 bytes₁ ≡ X.keccak256 bytes₂ → bytes₁ ≡ bytes₂)
      → (X.keccak256 (signing_data (X.keccak256 bytes₁) chain₁)
            ≡ X.keccak256 (signing_data (X.keccak256 bytes₂) chain₂)
          → signing_data (X.keccak256 bytes₁) chain₁ ≡ signing_data (X.keccak256 bytes₂) chain₂)
      → chain₁ < 2 ^ 64
      → chain₂ < 2 ^ 64
      → signature_msg X bytes₁ chain₁ ≡ signature_msg X bytes₂ chain₂
      → (bytes₁ ≡ bytes₂) × (chain₁ ≡ chain₂)
  unfolding signature_msg
  signature_msg-injective bytes₁ bytes₂ chain₁ chain₂ word₁ word₂ no_payload_collision
        no_message_collision small₁ small₂ same =
      let (hashes, chains) =
        signing_data-injective (X.keccak256 bytes₁) (X.keccak256 bytes₂) chain₁ chain₂ word₁ word₂
          small₁ small₂ (no_message_collision same) in
      (no_payload_collision hashes, chains)

  -- Where `Signature` keeps its parts, the 65 bytes that `recover_signer` writes for a signature of
  -- 256-bit parts are parsed by `signature_from_bytes` into a signature of the same r, s and parity.
  pub signature_from_bytes-signature_bytes :
      (signature : X.Signature)
      → X.signature_r signature < 2 ^ 256
      → X.signature_s signature < 2 ^ 256
      → signature_from_bytes X (signature_bytes X signature)
        ≡ ok (
            X.signature_new
              (X.signature_r signature)
              (X.signature_s signature)
              (X.signature_v signature))
  unfolding signature_from_bytes
  signature_from_bytes-signature_bytes signature r_fits s_fits =
      let (r_slice, s_slice, v_slice, _, total) = signature_parts signature in
      rw
        (
          total,
          r_slice,
          s_slice,
          v_slice,
          from_be_bytes-to_be_bytes,
          from_be_bytes-to_be_bytes,
          mod-eq_of_lt r_fits,
          mod-eq_of_lt s_fits,
          parity (X.signature_v signature),
        )
        refl

  normalized_id-lt :
      (signature : X.EcdsaSignature) (v : Bool) → (normalized X signature (byte_of_bool v)).1 < 4
  unfolding normalized
  normalized_id-lt signature true = elim (Option-cases (X.normalize_s signature)) [
    | inl e ↦ rw (e, normalized) (omega arith)
    | inr (n, e) ↦ rw (e, normalized) (omega arith)
  ]
  normalized_id-lt signature false = elim (Option-cases (X.normalize_s signature)) [
    | inl e ↦ rw (e, normalized) (omega arith)
    | inr (n, e) ↦ rw (e, normalized) (omega arith)
  ]

  from_byte_of_bool : (v : Bool) → from_be_bytes (byte_of_bool v ∷ []) ≡ byte_of_bool v
  unfolding from_be_bytes
  from_byte_of_bool true = refl
  from_byte_of_bool false = refl

  recover_parsed_total :
      IsLawful X
      → (parsed : Result Report X.EcdsaSignature) (v : Bool) (msg : Bytes)
      → (r : Result Report Address) × (recover_parsed X parsed (byte_of_bool v) msg ≡ ok r)
  unfolding recover_parsed
  recover_parsed_total lawful (err e) v msg = (err e, refl)
  recover_parsed_total lawful (ok g) v msg =
      elim (Option-cases (X.recovery_id_from_byte (normalized X g (byte_of_bool v)).1)) [
        | inl e ↦ absurd (lawful.recovery_ids _ (normalized_id-lt g v) e)
        | inr (id, e) ↦ (
          do
            key ← X.key_recover_from_prehash msg (normalized X g (byte_of_bool v)).0 id
            ok (X.address_from_public_key key),
          rw e refl,
        )
      ]

  unchecked_total :
      IsLawful X
      → (g : X.Signature) (msg : Bytes)
      → (r : Result Report Address) × (recover_signer_unchecked X (signature_bytes X g) msg ≡ ok r)
  unchecked_total lawful g msg =
      let (_, _, v_slice, rs_slice, _) = signature_parts g in
      let (r, e) =
        recover_parsed_total lawful
          (X.ecdsa_from_slice
            (to_be_bytes 32 (X.signature_r g) ++ to_be_bytes 32 (X.signature_s g)))
          (X.signature_v g) msg in
      (
        r,
        unfold recover_signer_unchecked in
            rw (rs_slice, v_slice, from_byte_of_bool (X.signature_v g)) e,
      )

  -- Where k256 has its four recovery identifiers, `recover_signer` never panics; and a signer that it
  -- returns comes from a signature whose s is at most half the order of the curve.
  pub recover_signer_total :
      (signature : X.Signature) (sighash : B256)
      → IsLawful X
      → (r : Option Address) × (recover_signer X signature sighash ≡ ok r)
        × ((r ≡ none) ⊎ (X.signature_s signature ≤ secp256k1n_half))
  unfolding recover_signer
  recover_signer_total signature sighash lawful =
      elim (Bool-cases (ltb secp256k1n_half (X.signature_s signature))) [
        | inl high ↦ (none, rw high refl, inl refl)
        | inr low ↦
            let (r, e) = unchecked_total lawful signature (to_be_bytes 32 sighash) in
            (to_option r, rw (low, e) refl, inr (ground arith))
      ]
