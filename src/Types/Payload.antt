-- ===== src/Types/Payload.antt =====
-- The execution payload that a sequencer signs. Its SSZ decoding is derived by a macro and is a
-- parameter of the model.
use malda_lending_fuzz.Prelude.{ℕ, List}
use malda_lending_fuzz.Bytes.{Bytes, Address, B256, U256}

pub record Withdrawal : Type 0 where
  index : ℕ
  validator_index : ℕ
  address : Address
  amount : ℕ

pub record ExecutionPayload : Type 0 where
  pub parent_hash : B256
  pub fee_recipient : Address
  pub state_root : B256
  pub receipts_root : B256
  pub logs_bloom : Bytes
  pub prev_randao : B256
  pub block_number : ℕ
  pub gas_limit : ℕ
  pub gas_used : ℕ
  pub timestamp : ℕ
  pub extra_data : Bytes
  pub base_fee_per_gas : U256
  pub block_hash : B256
  pub transactions : List Bytes
  pub withdrawals : List Withdrawal
  pub blob_gas_used : ℕ
  pub excess_blob_gas : ℕ
  pub withdrawals_root : B256
