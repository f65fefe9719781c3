-- ===== src/Contracts.antt =====
-- contracts/src: what the gateway contract calls and is called with. A call that reverts leaves the
-- state as it was, so that a revert is an error value.
pub mod Gateway
pub mod OutHere
pub mod Calls
use malda_lending_fuzz.Prelude.{
  ℕ, ◌+◌, ◌-◌, ◌^◌, ltb, leb, ◌==◌, Bool, true, false, if◌then◌else◌, Result, ok, err, List, ◌≡◌,
  refl, ◌>>=◌, ◌>>◌, bind_ok,
}
use malda_lending_fuzz.Bytes.{Bytes, Address, U256}
use malda_lending_fuzz.Journal.{Revert, Entry, decode_journal}

-- The custom errors, one for the reverts of the journal decoder, one for arithmetic out of range, and
-- one for a call of another contract that reverts.
pub data Error : Type 0 where
  paused user_not_whitelisted user_blacklisted caller_not_allowed not_rebalancer : Error
  address_not_valid chain_not_valid amount_not_valid amount_too_big : Error
  release_cash_not_available not_enough_gas_fee length_not_valid journal_not_valid : Error
  l1_inclusion_required not_owner arithmetic call_reverted : Error
  decoder : Revert → Error

abbrev pub require : Bool → Error → Result Error (Unit {0})
require b e = if b then ok tt else err e

-- Checked arithmetic on uint256.
unfoldable pub checked_add : U256 → U256 → Result Error U256
checked_add a b = if ltb (a + b) (2 ^ 256) then ok (a + b) else err arithmetic

unfoldable pub checked_sub : U256 → U256 → Result Error U256
checked_sub a b = if leb b a then ok (a - b) else err arithmetic

lift : Result Revert Entry → Result Error Entry
lift (ok e) = ok e
lift (err r) = err (decoder r)

-- `mTokenProofDecoderLib.decodeJournal`, as a call of the gateway.
unfoldable pub decoded : Bytes → Result Error Entry
unfolding lift
decoded journal = lift (decode_journal journal)

-- A write to a mapping.
abbrev pub update : {V : Type 0} → (Address → V) → Address → V → Address → V
update f k v j = if k == j then v else f j

-- The roles of contracts/src/Roles.sol that the gateway asks for.
pub data Role : Type 0 where
  rebalancer guardian_pause proof_forwarder proof_batch_forwarder sequencer : Role

-- The gateway's own address, the chain's identifier, and the underlying ERC-20 token. The state of the
-- token is what its balances are read from; a transfer moves tokens or reverts. `Elsewhere` are the
-- changes of that state by calls that do not come from the gateway.
pub record Deployment : Type 1 where
  pub this : Address
  pub chain_id : ℕ
  pub Token : Type 0
  pub balance_of : Token → Address → U256
  pub safe_transfer : Token → (from to : Address) → U256 → Result (Unit {0}) Token
  pub safe_transfer_from : Token → (spender from to : Address) → U256 → Result (Unit {0}) Token
  pub Elsewhere : Token → Token → Type 0

-- One call: its sender and value, and what the other contracts answer while it runs: the roles, the
-- blacklist, the verifier, whether an address takes the native currency, and `abi.decode`.
pub record Context : Type 0 where
  pub sender : Address
  pub value : U256
  pub is_allowed_for : Address → Role → Bool
  pub is_blacklisted : Address → Bool
  pub verify_input : (verifier : Address) → (journal_data seal : Bytes) → Bool
  pub accepts : Address → Bool
  pub abi_decode : Bytes → Result (Unit {0}) (List Bytes)

-- `require` on the answer of another contract.
abbrev pub reverted {ℓ} : {A : Type ℓ} → Result (Unit {0}) A → Result Error A
reverted (ok a) = ok a
reverted (err _) = err call_reverted

reverted-eq-ok {ℓ} : {A : Type ℓ} (r : Result (Unit {0}) A) {a : A} → reverted r ≡ ok a → r ≡ ok a
reverted-eq-ok (ok a) h = cc
reverted-eq-ok (err _) h = cc

-- The inversion of what succeeds, with what follows as a continuation.
pub require_ok {ι κ} :
    {B : Type ι} {C : Type κ} (t : Bool) (e : Error) (m : Result Error B) {b : B}
    → (require t e >> m) ≡ ok b
    → (t ≡ true → m ≡ ok b → C)
    → C
require_ok true e m h k = k refl h
require_ok false e m h k = absurd (cc)

pub reverted_ok {ℓ ι κ} :
    {A : Type ℓ} {B : Type ι} {C : Type κ} (r : Result (Unit {0}) A) (f : A → Result Error B)
    {b : B}
    → (reverted r >>= f) ≡ ok b
    → ((a : A) → r ≡ ok a → f a ≡ ok b → C)
    → C
reverted_ok r f h k = bind_ok (reverted r) f h λ a e rest. k a (reverted-eq-ok r e) rest

-- What holds of a value holds of the value that it is returned as.
pub returned :
    {A : Type 0} (P : A → Type 0) {a b : A} (r : Result Error A) → r ≡ ok a → r ≡ ok b → P a → P b
returned P {a} {b} r h k p = let e : a ≡ b = cc in rw (← e) p
