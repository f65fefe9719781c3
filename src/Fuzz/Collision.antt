-- ===== src/Fuzz/Collision.antt =====
-- crates/fuzz/src/signature_msg_collision.rs: no two inputs are to give the same message to sign.
pub mod Seen
use malda_lending_fuzz.Prelude.{
  ℕ, Bool, ◌&&◌, Option, none, some, List, [], ◌∷◌, ◌==◌, if◌then◌else◌, Outcome, ok, ◌>>=◌, ◌>>◌,
  assert, hash_collision,
}
use malda_lending_fuzz.Bytes.{Bytes, B256}
use malda_lending_fuzz.Externals.{Externals}
use malda_lending_fuzz.Cryptography.{signature_msg}
use malda_lending_fuzz.Fuzz.Commitment.{bytes_eq}

pub record FuzzInput : Type 0 where
  pub payload : Bytes
  pub chain_id : ℕ

-- The derived `==`.
unfoldable pub same_input : FuzzInput → FuzzInput → Bool
same_input a b = bytes_eq a.payload b.payload && (a.chain_id == b.chain_id)

-- SEEN_HASHES, the latest entry first.
abbrev pub Hashes : Type 0
Hashes = List (B256 × FuzzInput)

-- `seen_hashes.get(&hash)`
unfoldable pub get : Hashes → B256 → Option FuzzInput
get [] hash = none
get ((key, input) ∷ seen_hashes) hash = if key == hash then some input else get seen_hashes hash

-- The `if let` on what is stored under the hash.
unfoldable pub check_or_insert : Option FuzzInput → B256 → FuzzInput → Hashes → Outcome Hashes
check_or_insert (some existing_input) hash input seen_hashes = do
  assert (same_input existing_input input) hash_collision
  ok seen_hashes
check_or_insert none hash input seen_hashes = ok ((hash, input) ∷ seen_hashes)

module _ (X : Externals) where
  unfoldable pub fuzz_collision : Hashes → FuzzInput → Outcome Hashes
  fuzz_collision seen_hashes input =
      let hash = signature_msg X input.payload input.chain_id in
      check_or_insert (get seen_hashes hash) hash input seen_hashes

  -- The fuzzer's calls, one after the other.
  unfoldable pub fuzz_run : Hashes → List FuzzInput → Outcome Hashes
  fuzz_run seen_hashes [] = ok seen_hashes
  fuzz_run seen_hashes (input ∷ inputs) = do
    seen ← fuzz_collision seen_hashes input
    fuzz_run seen inputs
