-- ===== src/Tests/Inputs.antt =====
-- The concrete inputs.
use malda_lending_fuzz.Prelude.{ℕ, true, false, none, some, String, [], ◌∷◌, ok, err, library_error}
use malda_lending_fuzz.Bytes.{Bytes, to_be_bytes}
use malda_lending_fuzz.Constants.{linea_chain_id, base_chain_id}
use malda_lending_fuzz.Externals.Sample.{sample}
use malda_lending_fuzz.Types.Contracts.{CallResult}
use malda_lending_fuzz.Types.Commitment.{SequencerCommitment}
use malda_lending_fuzz.Validators.Batch.{Query}
use malda_lending_fuzz.Validators.ProofCall.{Request}
use malda_lending_fuzz.Validators.Params.{RelevantParams}
use malda_lending_fuzz.Host.Network.{Network, at_number, latest}

-- A request for Linea: the environment of block 98 and the linking blocks 99 and 100.
abbrev pub linea_request : Request sample
linea_request = record {
  env_input = some 98;
  chain_id = linea_chain_id;
  account = 5 ∷ [];
  asset = 6 ∷ [];
  target_chain_ids = base_chain_id ∷ [];
  sequencer_commitment = none;
  env_op_input = none;
  linking_blocks = 99 ∷ 100 ∷ [];
  env_eth_input = none;
  op_evm_input = none;
  sequencer_commitment_opstack_2 = none;
  env_op_input_2 = none;
}

abbrev pub linea_params : RelevantParams sample
linea_params = record {
  env_for_viewcall = 98;
  block_header_to_validate = 100;
  env_header_hash_to_validate = 98;
  env_header_to_validate = 98;
  op_env_for_viewcall_with_l1_inclusion = none;
  op_env_commitment = none;
  chain_id_for_length_validation = linea_chain_id;
  validate_l1_inclusion = false;
}

abbrev pub query : Query
query = record { user = 5; market = 6; target_chain_id = base_chain_id }

abbrev pub answer : CallResult
answer = record { success = true; return_data = [] }

-- The commitment to block 100: the hash of the parent, and the payload.
abbrev pub commitment : SequencerCommitment sample
commitment = record { bytes = to_be_bytes 64 100; signature = record { r = 0; s = 0; v = false } }

-- An endpoint that serves the blocks of the sample world, with every variable set.
abbrev pub network : Network sample
network = record {
  var = λ name. some name;
  Url = String;
  parse = λ url. ok url;
  HostEnv = λ _. ℕ;
  build = λ _ block _. elim block [ at_number n ↦ ok n | latest ↦ ok 100 ];
  build_with_game = λ _ _ _ _ _. ok 9;
  header = λ env. env;
  preflight = λ f env contract c. elim (sample.call f env contract c) [
    | ok answer ↦ ok (env, answer)
    | err _ ↦ err library_error
  ];
  into_input = λ _ env. ok env;
  get_json = λ _. ok commitment;
  request_to_vec = λ r. ok (r.chain_id ∷ []);
  count_to_vec = λ n. ok (n ∷ []);
  SessionInfo = Bytes;
  execute = λ env. ok env;
  ProveInfo = Bytes;
  prove_with_opts = λ env. ok env;
}
