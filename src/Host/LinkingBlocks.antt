-- ===== src/Host/LinkingBlocks.antt =====
-- `get_linking_blocks`: the headers of the reorg protection window.
pub mod Window
pub mod Served
use malda_lending_fuzz.Prelude.{
  ℕ, zero, suc, ◌-◌, String, List, [], ◌∷◌, Outcome, ok, err, ◌>>=◌, task_not_joined,
}
use malda_lending_fuzz.Bytes.{sub_uint, add_uint}
use malda_lending_fuzz.Externals.{Externals, eth_mainnet_chain_spec}
use malda_lending_fuzz.Host.Chains.{get_reorg_protection_depth}
use malda_lending_fuzz.Host.Network.{Network, at_number, eth_env}

-- `count` numbers from `start` on.
unfoldable pub numbers_from : ℕ → ℕ → List ℕ
numbers_from start zero = []
numbers_from start (suc count) = start ∷ numbers_from (suc start) count

-- `start..=end`
unfoldable pub range_inclusive : ℕ → ℕ → List ℕ
range_inclusive start end = numbers_from start (suc end - start)

-- A task that panics fails to be joined.
unfoldable pub join {ℓ} : {A : Type ℓ} → Outcome A → Outcome A
join (ok a) = ok a
join (err e) = err task_not_joined

module _ {X : Externals} (N : Network X) where
  unfoldable pub fetch_header : String → ℕ → Outcome X.Header
  fetch_header rpc_url block_nr = do
    env ← eth_env N rpc_url (at_number block_nr) eth_mainnet_chain_spec
    ok (N.header env)

  -- The tasks are joined in the order of their blocks.
  unfoldable pub join_headers : String → List ℕ → Outcome (List X.Header)
  join_headers rpc_url [] = ok []
  join_headers rpc_url (block_nr ∷ numbers) = do
    header ← join (fetch_header rpc_url block_nr)
    headers ← join_headers rpc_url numbers
    ok (header ∷ headers)

  unfoldable pub get_linking_blocks : ℕ → String → ℕ → Outcome (List X.Header)
  get_linking_blocks chain_id rpc_url current_block = do
    reorg_protection_depth ← get_reorg_protection_depth chain_id
    before ← sub_uint X.overflow_checks 64 current_block reorg_protection_depth
    start_block ← add_uint X.overflow_checks 64 before 1
    join_headers rpc_url (range_inclusive start_block current_block)
