-- ===== src/Host/Network.antt =====
-- What the host reads from outside, as a parameter, and its helpers on it: environment variables,
-- RPC endpoints by Steel's builders, and the sequencers' API.
use Prim.Native.String.{◌++◌}
use malda_lending_fuzz.Prelude.{
  ℕ, Bool, if◌then◌else◌, String, Option, Result, Report, Outcome, ok, ◌>>=◌, expect, expect_ok,
  env_var_missing, url_not_parsed, env_not_built, preflight_failed, input_not_converted,
}
use malda_lending_fuzz.Bytes.{Bytes, Address}
use malda_lending_fuzz.Externals.{Externals, Factory, ChainSpec, eth, op, op_mainnet_chain_spec}
use malda_lending_fuzz.Types.Contracts.{Call, Returns}
use malda_lending_fuzz.Types.Commitment.{SequencerCommitment}
use malda_lending_fuzz.Validators.ProofCall.{Request}
use malda_lending_fuzz.Host.Chains.{get_chain_params, config_portal}

pub data BlockNumberOrTag : Type 0 where
  at_number : ℕ → BlockNumberOrTag
  latest : BlockNumberOrTag

-- The two places that ask for the latest finalized dispute game; the answers may differ.
pub data Moment : Type 0 where
  for_l1_inclusion for_proof_data : Moment

-- What one task of the host is answered. A block asked for by its number is the same each time.
pub record Network (X : Externals) : Type 1 where
  -- dotenvy and url
  pub var : String → Option String
  pub Url : Type 0
  pub parse : String → Result Report Url
  -- Steel's builders, preflight calls, which record the state that they read in the environment, and
  -- `into_input`.
  pub HostEnv : Factory → Type 0
  pub build : Url → BlockNumberOrTag → ChainSpec → Result Report (HostEnv eth)
  pub build_with_game :
      Moment → (optimism_portal : Address) → (l1 l2 : Url) → ChainSpec → Result Report (HostEnv op)
  pub header : HostEnv eth → X.Header
  pub preflight :
      (f : Factory) → HostEnv f → Address → (c : Call) → Result Report (HostEnv f × Returns c)
  pub into_input : (f : Factory) → HostEnv f → Result Report (X.EvmInput f)
  -- reqwest and serde, and the words of risc0's serde as bytes.
  pub get_json : String → Result Report (SequencerCommitment X)
  pub request_to_vec : Request X → Result Report Bytes
  pub count_to_vec : ℕ → Result Report Bytes
  -- The executor and the prover of risc0, on the bytes of their environment.
  pub SessionInfo : Type 0
  pub execute : Bytes → Result Report SessionInfo
  pub ProveInfo : Type 0
  pub prove_with_opts : Bytes → Result Report ProveInfo

module _ {X : Externals} (N : Network X) where
  unfoldable pub get_env_var : String → Outcome String
  get_env_var env_var = expect (N.var env_var) env_var_missing

  -- The chain names are upper-case literals, which `to_uppercase` leaves.
  unfoldable pub suffixes : Bool → Bool → String
  suffixes fallback testnet =
      (if testnet then "_SEPOLIA" else "") ++ (if fallback then "_FALLBACK" else "")

  unfoldable pub get_rpc_url : String → Bool → Bool → Outcome String
  get_rpc_url chain_name fallback testnet =
      get_env_var ("RPC_URL_" ++ (chain_name ++ suffixes fallback testnet))

  unfoldable pub get_sequencer_request_url : String → Bool → Bool → Outcome String
  get_sequencer_request_url chain_name fallback testnet =
      get_env_var ("SEQUENCER_REQUEST_" ++ (chain_name ++ suffixes fallback testnet))

  -- The URL of Ethereum, the portal, the URL of the chain and its name.
  unfoldable pub get_opstack_config : ℕ → Bool → Outcome (String × Address × String × String)
  get_opstack_config chain_id fallback = do
    (chain_name, is_testnet) ← get_chain_params chain_id
    l1_rpc_url ← get_rpc_url "ETHEREUM" fallback is_testnet
    l2_rpc_url ← get_rpc_url chain_name fallback is_testnet
    portal ← config_portal chain_id
    ok (l1_rpc_url, portal, l2_rpc_url, chain_name)

  -- `EthEvmEnv::builder()...build().await`, with its `expect`s.
  unfoldable pub eth_env : String → BlockNumberOrTag → ChainSpec → Outcome (N.HostEnv eth)
  eth_env rpc_url block spec = do
    url ← expect_ok (N.parse rpc_url) url_not_parsed
    expect_ok (N.build url block spec) env_not_built

  -- `OpEvmEnv::builder().dispute_game_from_rpc(..).game_index(Finalized)...build().await`.
  unfoldable pub op_env : Moment → Address → String → String → Outcome (N.HostEnv op)
  op_env moment optimism_portal l1_rpc_url l2_rpc_url = do
    l1_url ← expect_ok (N.parse l1_rpc_url) url_not_parsed
    l2_url ← expect_ok (N.parse l2_rpc_url) url_not_parsed
    expect_ok (N.build_with_game moment optimism_portal l1_url l2_url op_mainnet_chain_spec)
        env_not_built

  -- `Contract::preflight(..).call_builder(..).call().await`.
  unfoldable pub call_preflight :
      (f : Factory) → N.HostEnv f → Address → (c : Call) → Outcome (N.HostEnv f × Returns c)
  call_preflight f env contract c = expect_ok (N.preflight f env contract c) preflight_failed

  unfoldable pub env_into_input : (f : Factory) → N.HostEnv f → Outcome (X.EvmInput f)
  env_into_input f env = expect_ok (N.into_input f env) input_not_converted
