-- ===== src/Types/Abi.antt =====
-- The module `abi` of types.rs: the packed encoding of Solidity values.
pub mod Laws
use malda_lending_fuzz.Prelude.{
  ℕ, ◌/◌, ◌++◌, List, [], ◌∷◌, Bool, true, false, String, length, drop, concat, Outcome, ok, ◌>>=◌,
}
use malda_lending_fuzz.Bytes.{Bytes, Address, U256, to_be_bytes, sub_uint}
use malda_lending_fuzz.Externals.{Externals}

-- A `String` is given by its bytes, and `TakeLastXBytes` by its number of bits.
pub data SolidityDataType : Type 0 where
  string : Bytes → SolidityDataType
  address : Address → SolidityDataType
  bytes : Bytes → SolidityDataType
  bool : Bool → SolidityDataType
  number : U256 → SolidityDataType
  number_with_shift : U256 → ℕ → SolidityDataType

module _ (X : Externals) where
  unfoldable pub pack : SolidityDataType → Outcome Bytes
  pack (string s) = ok s
  pack (address a) = ok (to_be_bytes 20 a)
  pack (bytes b) = ok b
  pack (bool true) = ok (1 ∷ [])
  pack (bool false) = ok (0 ∷ [])
  pack (number n) = ok (to_be_bytes 32 n)
  pack (number_with_shift n to_take) = do
    let local_res = to_be_bytes 32 n
    to_skip ← sub_uint X.overflow_checks X.usize_bits (length local_res) (to_take / 8)
    ok (drop to_skip local_res)

  -- The fold that pushes the packed items one behind the other.
  pack_items : List SolidityDataType → List Bytes → Outcome (List Bytes)
  pack_items [] acc = ok acc
  pack_items (i ∷ items) acc = do packed ← pack i; pack_items items (acc ++ packed ∷ [])

  -- The bytes, and the same in hexadecimal.
  unfoldable pub encode_packed : List SolidityDataType → Outcome (Bytes × String)
  unfolding pack_items
  encode_packed items = do
    packed ← pack_items items []
    let res = concat packed
    ok (res, X.hex_encode res)
