-- ===== src/Externals/Sample.antt =====
-- A small world in which the libraries are concrete functions, for runs at concrete inputs: a header
-- is its block number and its own hash, the parent of block n is block n - 1, every Linea block but
-- block 0 is signed by the Linea sequencer and every commitment by the Optimism sequencer.
use malda_lending_fuzz.Prelude.{
  ℕ, ◌+◌, ◌-◌, ◌^◌, ◌%◌, refl, Bool, true, false, none, some, [], ◌∷◌, map, ltb, if◌then◌else◌,
  Outcome, ok, arith,
}
use malda_lending_fuzz.Bytes.{to_be_bytes, from_be_bytes}
use malda_lending_fuzz.Constants.{linea_sequencer, optimism_sequencer}
use malda_lending_fuzz.Types.Contracts.{
  Call, Returns, current_l2_block_number, hash, number, game_at_index, status, resolved_at,
  root_claim, aggregate3, dispute_game_factory, respected_game_type_updated_at,
  proof_maturity_delay_seconds, dispute_game_blacklist, defender_wins,
}
use malda_lending_fuzz.Types.Payload.{ExecutionPayload}
use malda_lending_fuzz.Externals.{Externals, IsLawful}

abbrev pub sample_payload : ℕ → ExecutionPayload
sample_payload block = record {
  parent_hash = block - 1;
  fee_recipient = 0;
  state_root = 0;
  receipts_root = 0;
  logs_bloom = [];
  prev_randao = 0;
  block_number = block;
  gas_limit = 0;
  gas_used = 0;
  timestamp = 0;
  extra_data = [];
  base_fee_per_gas = 0;
  block_hash = block;
  transactions = [];
  withdrawals = [];
  blob_gas_used = 0;
  excess_blob_gas = 0;
  withdrawals_root = 0;
}

-- An environment is the number of its block; the dispute game has the address 77.
abbrev sample_call : ℕ → (c : Call) → Outcome (Returns c)
sample_call env current_l2_block_number = ok 100
sample_call env hash = ok env
sample_call env number = ok env
sample_call env (game_at_index index) =
    ok (record { game_type = 0; created_at = 20; game_address = 77 })
sample_call env status = ok defender_wins
sample_call env resolved_at = ok 30
sample_call env root_claim = ok 9
sample_call env (aggregate3 calls) =
    ok (map (λ _. record { success = true; return_data = [] }) calls)
sample_call env dispute_game_factory = ok 55
sample_call env respected_game_type_updated_at = ok 10
sample_call env proof_maturity_delay_seconds = ok 600
sample_call env (dispute_game_blacklist game) = ok false

abbrev pub sample : Externals
sample = record {
  overflow_checks = false;
  usize_bits = 32;
  keccak256 = from_be_bytes;
  hex_encode = λ _. "";
  Header = ℕ;
  parent_hash = λ h. h - 1;
  number = λ h. h;
  timestamp = λ h. h + 1000;
  extra_data = λ h. if ltb 0 h then to_be_bytes 65 1 else [];
  with_extra_data = λ _ h. h;
  hash_slow = λ h. h;
  abi_decode_amounts = λ _. ok (1000, 500);
  abi_encode_journal = λ entries. elim entries [ [] ↦ [] | entry ∷ _ ↦ entry ];
  u256_sub = λ a b. (a + 2 ^ 256 - b) % 2 ^ 256;
  Signature = record { r : ℕ; s : ℕ; v : Bool };
  signature_new = λ r s v. record { r = r; s = s; v = v };
  signature_r = λ g. g.r;
  signature_s = λ g. g.s;
  signature_v = λ g. g.v;
  signature_try_from = λ _. ok (record { r = 0; s = 0; v = false });
  PublicKey = ℕ;
  signature_recover_from_prehash = λ _ _. ok optimism_sequencer;
  address_from_public_key = λ key. key;
  EcdsaSignature = ℕ;
  ecdsa_from_slice = λ _. ok 0;
  normalize_s = λ _. none;
  RecoveryId = ℕ;
  recovery_id_from_byte = λ b. if ltb b 4 then some b else none;
  key_recover_from_prehash = λ _ _ _. ok linea_sequencer;
  decompress_vec = λ b. ok b;
  from_ssz_bytes = λ b. ok (sample_payload (from_be_bytes b));
  EvmInput = λ _. ℕ;
  EvmEnv = λ _. ℕ;
  into_env = λ _ n _. ok n;
  env_header = λ n. n;
  env_seal = λ n. n;
  Commitment = ℕ;
  env_commitment = λ _ n. n;
  decode_id = λ c. (c, 2);
  digest = λ c. c;
  call = λ _ env _ c. sample_call env c;
}

pub sample-IsLawful : IsLawful sample
sample-IsLawful = record {
  r-new = λ r s v. refl;
  s-new = λ r s v. refl;
  v-new = λ r s v. refl;
  recovery_ids = λ b h. ground arith;
  sub_wraps = λ a b. refl;
}
