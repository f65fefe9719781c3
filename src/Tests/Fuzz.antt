-- ===== src/Tests/Fuzz.antt =====
-- Examples of the fuzz targets.
use malda_lending_fuzz.Prelude.{
  ◌≡◌, ◌≢◌, ◌↔◌, refl, arith, false, some, [], ◌∷◌, ◌++◌, ok, err, ◌==◌, forged_header_accepted,
}
use malda_lending_fuzz.Bytes.{Bytes, to_be_bytes, from_be_bytes}
use malda_lending_fuzz.Constants.{linea_sequencer}
use malda_lending_fuzz.Externals.Sample.{sample}
use malda_lending_fuzz.Types.Commitment.{new}
use malda_lending_fuzz.Cryptography.{recover_signer}
use malda_lending_fuzz.Fuzz.{signed_bytes}
use malda_lending_fuzz.Fuzz.Commitment.Parsed.{new-signed_bytes}
use malda_lending_fuzz.Fuzz.Collision.{FuzzInput, Hashes, fuzz_run}
use malda_lending_fuzz.Fuzz.Collision.Seen.{Unique, KeccakSeparates, fuzz_run_iff}
use malda_lending_fuzz.Fuzz.LineaHeader.{ArbitraryHeaderData, fuzz_header, fuzz_linea_env}
use malda_lending_fuzz.Fuzz.LineaHeader.Forged.{fuzz_linea_env_iff}
use malda_lending_fuzz.Tests.Signing.{signing, signing-IsLawful, tools, tools-AreLawful}
use mathlib.Core.List.{Memᴰ}
use mathlib.Core.List.Memᴰ.{head, tail}

abbrev payload : Bytes
payload = 5 ∷ 6 ∷ []

abbrev signature : signing.Signature
signature = record { r = 7; s = 8; v = false }

parsed : signing.signature_try_from (signed_bytes tools tt 1) ≡ ok signature
unfolding signed_bytes to_be_bytes from_be_bytes
parsed = refl

new-signed_bytes_example :
    (new signing (signed_bytes tools tt 1 ++ payload)
      ≡ ok (ok (record { bytes = payload; signature = signature })))
    × (signing.signature_r signature ≡ tools.r tt)
    × (signing.signature_s signature ≡ tools.s tt)
new-signed_bytes_example =
    new-signed_bytes tools tools-AreLawful payload (signed_bytes tools tt 1 ++ payload) tt 1
      signature refl parsed

abbrev one : FuzzInput
one = record { payload = 5 ∷ []; chain_id = 10 }

fuzz_run_iff_example :
    ((seen : Hashes) × (fuzz_run sample [] (one ∷ one ∷ []) ≡ ok seen))
    ↔ Unique sample (one ∷ one ∷ [])
fuzz_run_iff_example = fuzz_run_iff sample (one ∷ one ∷ [])

only_one : (a : FuzzInput) → Memᴰ a (one ∷ one ∷ []) → a ≡ one
only_one a (head e) = e
only_one a (tail (head e)) = e
only_one a (tail (tail m)) = elim m [ ]

separated : KeccakSeparates sample (one ∷ one ∷ [])
unfolding from_be_bytes
separated = record {
  words = λ a here. rw (only_one a here) (omega arith);
  payloads = λ a b here there same. rw (only_one a here, only_one b there) refl;
  messages = λ a b here there same. rw (only_one a here, only_one b there) refl;
  chain_ids = λ a here. rw (only_one a here) (omega arith);
}

abbrev header : ArbitraryHeaderData
header = record { parent_hash = 1; state_root = 2; extra_data_prefix = 9 ∷ [] }

fuzz_linea_env_iff_example :
    (fuzz_linea_env tools 3 header ≢ ok tt)
    × ((fuzz_linea_env tools 3 header ≡ err forged_header_accepted) ↔ (
        recover_signer signing
          (signing.signature_new 7 8 (1 == 1))
          (signing.hash_slow (fuzz_header tools header))
        ≡ ok (some linea_sequencer)))
fuzz_linea_env_iff_example =
    fuzz_linea_env_iff tools tools-AreLawful header tt 1 3 (to_be_bytes 32 3) signing-IsLawful refl
      refl
