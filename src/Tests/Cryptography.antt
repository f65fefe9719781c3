-- ===== src/Tests/Cryptography.antt =====
-- Examples of signatures.
use malda_lending_fuzz.Prelude.{
  ℕ, ◌≤◌, ◌<◌, ◌^◌, ◌≡◌, ◌⊎◌, refl, arith, true, none, Option, ok, [], ◌∷◌,
}
use malda_lending_fuzz.Bytes.{Bytes, Address, from_be_bytes}
use malda_lending_fuzz.Constants.{secp256k1n_half}
use malda_lending_fuzz.Externals.Sample.{sample, sample-IsLawful}
use malda_lending_fuzz.Cryptography.{recover_signer}
use malda_lending_fuzz.Cryptography.Laws.{signature_msg-injective, recover_signer_total}

abbrev payload : Bytes
payload = 5 ∷ []

abbrev chain : ℕ
chain = 10

small : sample.keccak256 payload < 2 ^ 256
unfolding from_be_bytes
small = omega arith

signature_msg-injective_example : (payload ≡ payload) × (chain ≡ chain)
signature_msg-injective_example =
    signature_msg-injective sample payload payload chain chain small small (λ _. refl) (λ _. refl)
      (omega arith) (omega arith) refl

recover_signer_total_example :
    (r : Option Address) × (recover_signer sample (record { r = 7; s = 8; v = true }) 3 ≡ ok r)
    × ((r ≡ none) ⊎ (8 ≤ secp256k1n_half))
recover_signer_total_example =
    recover_signer_total sample (record { r = 7; s = 8; v = true }) 3 sample-IsLawful
