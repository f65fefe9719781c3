-- ===== src/UnitTests.antt =====
-- The unit tests beside the code, as functions of what they draw at random: a test that should panic
-- is to end in the panic that it names.
pub mod ChainLength
pub mod Signatures
pub mod Packing
pub mod Requests
use malda_lending_fuzz.Prelude.{ℕ, ◌≡◌}
use malda_lending_fuzz.Bytes.{B256}
use malda_lending_fuzz.Externals.{Externals}

-- The two roots that `create_mock_header` draws for each header.
pub record Roots : Type 0 where
  pub state_root : B256
  pub transactions_root : B256

-- alloy's header of which only the fields that the tests choose are not zero, empty or absent.
pub record Mocks (X : Externals) : Type 0 where
  pub header_of : (parent_hash : B256) → (number : ℕ) → Roots → X.Header
  pub parent_hash-of :
      (parent : B256) (number : ℕ) (roots : Roots)
      → X.parent_hash (header_of parent number roots) ≡ parent
