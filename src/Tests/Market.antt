-- ===== src/Tests/Market.antt =====
-- The sample market of the end-to-end runs: what the network and the guest answer.
use malda_lending_fuzz.Prelude.{ℕ, ◌≡◌, refl, arith, false, none, some, List, [], ◌∷◌, ok}
use malda_lending_fuzz.Bytes.{Address, U256, to_be_bytes, from_be_bytes, slice, sub_uint}
use malda_lending_fuzz.Constants.{
  linea_chain_id, base_chain_id, optimism_chain_id, ethereum_chain_id,
}
use malda_lending_fuzz.Externals.Sample.{sample, sample_payload}
use malda_lending_fuzz.Validators.Batch.{batch_params}
use malda_lending_fuzz.Validators.Linea.{validate_linea_env, expected_sequencer}
use malda_lending_fuzz.Cryptography.{
  signature_from_bytes, recover_signer, recover_signer_unchecked, signature_bytes, normalized,
}
use malda_lending_fuzz.Validators.ChainLength.{required_depth}
use malda_lending_fuzz.Host.LinkingBlocks.{fetch_header}
use malda_lending_fuzz.Types.Commitment.{try_from, verify}
use malda_lending_fuzz.Validators.Opstack.{
  validate_opstack_env, verify_for_chain, verify_via_chain,
  get_validated_ethereum_block_hash_via_opstack,
}
use malda_lending_fuzz.Host.Chains.{get_chain_params}
use malda_lending_fuzz.Host.Network.{
  get_rpc_url, suffixes, get_env_var, eth_env, get_sequencer_request_url,
}
use malda_lending_fuzz.Host.CallInput.{host_call}
use malda_lending_fuzz.Poc.Sources.{Announced, Recorded}
use malda_lending_fuzz.Poc.Accepted.{Answered}
use malda_lending_fuzz.Tests.Inputs.{network, commitment}

abbrev pub user : List Address
user = 5 ∷ []

abbrev pub market : List Address
market = 6 ∷ []

abbrev pub target : List ℕ
target = base_chain_id ∷ []

abbrev pub amount : List (U256 × U256)
amount = (1000, 500) ∷ []

pub linea_known : required_depth linea_chain_id ≡ ok 2
unfolding required_depth
linea_known = refl

pub linea-Answered :
    Answered network user market target linea_chain_id "RPC_URL_LINEA" false "LINEA" false false 2
      100
      (λ n. n)
      (λ n. n)
      amount
unfolding get_chain_params get_rpc_url suffixes get_env_var eth_env fetch_header batch_params
    host_call
linea-Answered = record {
  reachable = record {
    params = refl;
    endpoint = refl;
    known = linea_known;
    deep = omega arith;
    small = omega arith;
  };
  serves = λ n within. (refl, omega arith, refl);
  answers = _;
  input = 98;
  env = 98;
  preflighted = record {
    host_env = 98;
    host_env_called = 98;
    built = refl;
    called = refl;
    taken = refl;
  };
  rebuilt = record { built = refl; seal = refl; repeated = refl; decoded = (refl, tt) };
}

pub optimism_known : required_depth optimism_chain_id ≡ ok 2
unfolding required_depth
optimism_known = refl

pub optimism-Answered :
    Answered network user market target optimism_chain_id "RPC_URL_OPTIMISM" false "OPTIMISM" false
      false 2 100
      (λ n. n)
      (λ n. n)
      amount
unfolding get_chain_params get_rpc_url suffixes get_env_var eth_env fetch_header batch_params
    host_call
optimism-Answered = record {
  reachable = record {
    params = refl;
    endpoint = refl;
    known = optimism_known;
    deep = omega arith;
    small = omega arith;
  };
  serves = λ n within. (refl, omega arith, refl);
  answers = _;
  input = 98;
  env = 98;
  preflighted = record {
    host_env = 98;
    host_env_called = 98;
    built = refl;
    called = refl;
    taken = refl;
  };
  rebuilt = record { built = refl; seal = refl; repeated = refl; decoded = (refl, tt) };
}

pub ethereum_known : required_depth ethereum_chain_id ≡ ok 2
unfolding required_depth
ethereum_known = refl

pub ethereum-Answered :
    Answered network user market target ethereum_chain_id "RPC_URL_ETHEREUM" false "ETHEREUM" false
      false 2 100
      (λ n. n)
      (λ n. n)
      amount
unfolding get_chain_params get_rpc_url suffixes get_env_var eth_env fetch_header batch_params
    host_call
ethereum-Answered = record {
  reachable = record {
    params = refl;
    endpoint = refl;
    known = ethereum_known;
    deep = omega arith;
    small = omega arith;
  };
  serves = λ n within. (refl, omega arith, refl);
  answers = _;
  input = 98;
  env = 98;
  preflighted = record {
    host_env = 98;
    host_env_called = 98;
    built = refl;
    called = refl;
    taken = refl;
  };
  rebuilt = record { built = refl; seal = refl; repeated = refl; decoded = (refl, tt) };
}

pub sealed : validate_linea_env sample linea_chain_id 100 ≡ ok tt
unfolding validate_linea_env sub_uint slice signature_from_bytes recover_signer
    recover_signer_unchecked signature_bytes normalized to_be_bytes from_be_bytes expected_sequencer
sealed = refl

pub announced : Announced network optimism_chain_id false commitment 100
unfolding get_chain_params get_sequencer_request_url suffixes get_env_var try_from slice to_be_bytes
    from_be_bytes
announced = record {
  name = "OPTIMISM";
  testnet = false;
  request_url = "SEQUENCER_REQUEST_OPTIMISM";
  payload = sample_payload 100;
  params = refl;
  endpoint = refl;
  answered = refl;
  decoded = refl;
  numbered = refl;
}

pub vouched :
    get_validated_ethereum_block_hash_via_opstack sample
      (some commitment)
      (some 100)
      ethereum_chain_id
      none
      none
    ≡ ok 100
unfolding get_validated_ethereum_block_hash_via_opstack verify_via_chain validate_opstack_env
    verify_for_chain verify try_from slice to_be_bytes from_be_bytes
vouched = refl

pub recorded : Recorded network optimism_chain_id false 100 100 100
unfolding get_chain_params get_rpc_url suffixes get_env_var eth_env
recorded = record {
  name = "OPTIMISM";
  testnet = false;
  url = "RPC_URL_OPTIMISM";
  host_env = 100;
  after_hash = 100;
  after_number = 100;
  l1_hash = 100;
  params = refl;
  endpoint = refl;
  built = refl;
  hash_called = refl;
  taken = refl;
  number_called = refl;
}
