-- ===== src/Journal.antt =====
-- contracts/src/libraries/mTokenProofDecoderLib.sol: how the contracts read a journal entry, with
-- the readers of contracts/src/libraries/BytesLib.sol that it calls.
pub mod RoundTrip
pub mod Entries
use malda_lending_fuzz.Prelude.{
  ℕ, ◌+◌, ◌-◌, Bool, ◌||◌, length, take, drop, leb, ◌==◌, if◌then◌else◌, Result, ok, err, ◌>>=◌,
  ◌>>◌,
}
use malda_lending_fuzz.Bytes.{Bytes, Address, U256, from_be_bytes}

pub data Revert : Type 0 where
  slice_out_of_bounds read_out_of_bounds invalid_length invalid_inclusion : Revert

require : Bool → Revert → Result Revert (Unit {0})
require b e = if b then ok tt else err e

-- `BytesLib.slice`.
slice_of : Bytes → ℕ → ℕ → Result Revert Bytes
unfolding require
slice_of bytes start len = do
  require (leb (start + len) (length bytes)) slice_out_of_bounds
  ok (take len (drop start bytes))

-- `toAddress`, `toUint256`, `toUint32` and `toUint8` at offset 0: the first `width` bytes, high
-- byte first.
read_uint : ℕ → Bytes → Result Revert ℕ
unfolding require
read_uint width bytes = do
  require (leb width (length bytes)) read_out_of_bounds
  ok (from_be_bytes (take width bytes))

-- A slice, and its number.
field : Bytes → ℕ → ℕ → Result Revert ℕ
unfolding slice_of read_uint
field bytes start len = do part ← slice_of bytes start len; read_uint len part

pub record Entry : Type 0 where
  pub sender : Address
  pub market : Address
  pub acc_amount_in : U256
  pub acc_amount_out : U256
  pub chain_id : ℕ
  pub dst_chain_id : ℕ
  pub l1_inclusion : Bool

abbrev pub entry_size : ℕ
entry_size = 113

pub decode_journal : Bytes → Result Revert Entry
unfolding require
decode_journal bytes = do
  require (length bytes == entry_size) invalid_length
  sender ← field bytes 0 20
  market ← field bytes 20 20
  acc_amount_in ← field bytes 40 32
  acc_amount_out ← field bytes 72 32
  chain_id ← field bytes 104 4
  dst_chain_id ← field bytes 108 4
  raw ← field bytes 112 1
  require (raw == 0 || raw == 1) invalid_inclusion
  ok (record {
    sender = sender;
    market = market;
    acc_amount_in = acc_amount_in;
    acc_amount_out = acc_amount_out;
    chain_id = chain_id;
    dst_chain_id = dst_chain_id;
    l1_inclusion = raw == 1;
  })
