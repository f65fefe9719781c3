-- ===== src/Validators/Linea.antt =====
-- The checks on a Linea block: the sequencer's signature in the extra data, and the block number
-- that is known to L1.
pub mod Laws
use malda_lending_fuzz.Prelude.{
  ℕ, leb, ◌==◌, if◌then◌else◌, length, Outcome, ok, err, ◌>>=◌, ◌>>◌, assert, expect,
  invalid_chain_id, ethereum_hash_mismatch_linea, block_number_not_posted, signature_not_recovered,
  not_signed_by_sequencer,
}
use malda_lending_fuzz.Bytes.{Address, B256, slice, sub_uint}
use malda_lending_fuzz.Constants.{
  linea_chain_id, linea_sepolia_chain_id, linea_sequencer, linea_sepolia_sequencer,
  l1_message_service_linea, l1_message_service_linea_sepolia,
}
use malda_lending_fuzz.Externals.{Externals, eth, eth_mainnet_chain_spec}
use malda_lending_fuzz.Types.Contracts.{current_l2_block_number}
use malda_lending_fuzz.Cryptography.{recover_signer, signature_from_bytes}

-- The `match` that selects the expected sequencer.
unfoldable pub expected_sequencer : ℕ → Outcome Address
expected_sequencer chain_id =
    if chain_id == linea_chain_id
    then ok linea_sequencer
    else if chain_id == linea_sepolia_chain_id
    then ok linea_sepolia_sequencer
    else err invalid_chain_id

-- The `match` that selects the message service on L1.
unfoldable pub message_service : ℕ → Outcome Address
message_service chain_id =
    if chain_id == linea_chain_id
    then ok l1_message_service_linea
    else if chain_id == linea_sepolia_chain_id
    then ok l1_message_service_linea_sepolia
    else err invalid_chain_id

module _ (X : Externals) where
  unfoldable pub validate_linea_env : ℕ → X.Header → Outcome (Unit {0})
  validate_linea_env chain_id header = do
    let extra = X.extra_data header
    split ← sub_uint X.overflow_checks X.usize_bits (length extra) 65
    prefix ← slice extra 0 split
    signature_bytes ← slice extra split (length extra)
    sig ← signature_from_bytes X signature_bytes
    let sighash = X.hash_slow (X.with_extra_data prefix header)
    recovered ← recover_signer X sig sighash
    sequencer ← expect recovered signature_not_recovered
    expected ← expected_sequencer chain_id
    assert (sequencer == expected) not_signed_by_sequencer

  unfoldable pub validate_linea_env_with_l1_inclusion :
      ℕ → ℕ → X.EvmInput eth → B256 → Outcome (Unit {0})
  validate_linea_env_with_l1_inclusion chain_id env_block_number env_eth_input ethereum_hash = do
    service ← message_service chain_id
    env_eth ← X.into_env eth env_eth_input eth_mainnet_chain_spec
    assert (ethereum_hash == X.env_seal env_eth) ethereum_hash_mismatch_linea
    l2_block_number ← X.call eth env_eth service current_l2_block_number
    assert (leb env_block_number l2_block_number) block_number_not_posted
