-- ===== src/Types/Contracts.antt =====
-- The view functions of the Solidity interfaces that types.rs declares by `sol!`, each a
-- constructor of `Call`, with what it returns.
use malda_lending_fuzz.Prelude.{ℕ, Bool, true, false, List}
use malda_lending_fuzz.Bytes.{Bytes, Address, B256, U256}

pub data GameStatus : Type 0 where
  in_progress challenger_wins defender_wins : GameStatus

-- `status == GameStatus::DEFENDER_WINS`, by the derived equality.
unfoldable pub is_defender_wins : GameStatus → Bool
is_defender_wins in_progress = false
is_defender_wins challenger_wins = false
is_defender_wins defender_wins = true

pub record Call3 : Type 0 where
  pub target : Address
  pub allow_failure : Bool
  pub call_data : Bytes

pub record CallResult : Type 0 where
  pub success : Bool
  pub return_data : Bytes

-- What `gameAtIndex` returns.
pub record Game : Type 0 where
  pub game_type : U256
  pub created_at : U256
  pub game_address : Address

pub data Call : Type 0 where
  -- IL1MessageService
  current_l2_block_number : Call
  -- IL1Block
  hash number : Call
  -- IDisputeGameFactory
  game_at_index : U256 → Call
  -- IDisputeGame
  status resolved_at root_claim : Call
  -- IMulticall3
  aggregate3 : List Call3 → Call
  -- IOptimismPortal
  dispute_game_factory respected_game_type_updated_at proof_maturity_delay_seconds : Call
  dispute_game_blacklist : Address → Call

abbrev pub Returns : Call → Type 0
Returns current_l2_block_number = U256
Returns hash = B256
Returns number = ℕ
Returns (game_at_index index) = Game
Returns status = GameStatus
Returns resolved_at = ℕ
Returns root_claim = B256
Returns (aggregate3 calls) = List CallResult
Returns dispute_game_factory = Address
Returns respected_game_type_updated_at = U256
Returns proof_maturity_delay_seconds = U256
Returns (dispute_game_blacklist game) = Bool
