-- ===== src/Prelude/Results.antt =====
-- Rust's `Result` and the panics of the coprocessor, as values.
use mathlib.Core.Path.{◌≡◌, refl}
use mathlib.Core.Bool.{Bool, true, false}
use mathlib.Core.Option.{Option, none, some}
use mathlib.Core.Logic.{◌⊎◌, inl, inr}
use Prim.Native.Nat.{ℕ}
use malda_lending_fuzz.Prelude.Tests.{◌==◌, if◌then◌else◌}

pub data Result {ℓ κ} (E : Type ℓ) (A : Type κ) : Type (ℓ ⊔ κ) where
  ok : A → Result E A
  err : E → Result E A

infixl 5 ◌>>=◌ ◌>>◌
abbrev pub ◌>>=◌ {ℓ κ ι} :
    {E : Type ℓ} {A : Type κ} {B : Type ι} → Result E A → (A → Result E B) → Result E B
ok a >>= f = f a
err e >>= f = err e

abbrev pub ◌>>◌ {ℓ κ ι} :
    {E : Type ℓ} {A : Type κ} {B : Type ι} → Result E A → Result E B → Result E B
m >> k = m >>= λ _. k

-- The errors that the functions of the coprocessor return as values.
pub data Report : Type 0 where
  invalid_signer decode_failed library_error : Report

-- One constructor for each panic message, `expect` or `unwrap` of the coprocessor, for slices and
-- arithmetic out of range, and for a panic inside a library. The unit tests share one for their
-- `assert!`, one for `assert_ne!` and one for a chain that should have been refused.
pub data Panic : Type 0 where
  invalid_chain_id : Panic
  env_eth_input_none op_evm_input_none env_input_none env_op_input_none unwrap_none : Panic
  game_type_not_respected game_created_before_update game_not_defender_wins : Panic
  game_blacklisted insufficient_time_passed root_claim_mismatch : Panic
  hash_mismatch_opstack ethereum_hash_mismatch_linea block_number_not_posted : Panic
  commitment_not_verified payload_not_converted block_hash_mismatch : Panic
  chain_too_short blocks_not_hashlinked last_hash_mismatch : Panic
  signature_not_recovered not_signed_by_sequencer : Panic
  invalid_signature_length recovery_id_invalid : Panic
  return_data_not_decoded : Panic
  slice_out_of_range index_out_of_range arithmetic_overflow : Panic
  unsupported_guest_chain input_exhausted : Panic
  lengths_differ l1_inclusion_unsupported env_var_missing task_not_joined : Panic
  url_not_parsed env_not_built preflight_failed input_not_converted : Panic
  commitment_not_fetched execution_failed stats_missing opstack_only serialization_failed : Panic
  library_panic unwrap_err : Panic
  data_mismatch signature_r_mismatch signature_s_mismatch : Panic
  hash_collision forged_header_accepted input_not_decoded : Panic
  assertion_failed values_equal chain_validated : Panic

abbrev pub Outcome {ℓ} : Type ℓ → Type ℓ
Outcome A = Result Panic A

-- `assert!`, and `assert_eq!` on a computed comparison.
abbrev pub assert : Bool → Panic → Outcome (Unit {0})
assert true p = ok tt
assert false p = err p

-- `assert_ne!`.
abbrev pub assert_ne : ℕ → ℕ → Outcome (Unit {0})
assert_ne a b = if a == b then err values_equal else ok tt

-- `Option::expect` and `Option::unwrap`.
abbrev pub expect {ℓ} : {A : Type ℓ} → Option A → Panic → Outcome A
expect none p = err p
expect (some a) p = ok a

-- `Result::expect` and `Result::unwrap`.
abbrev pub expect_ok {ℓ κ} : {E : Type ℓ} {A : Type κ} → Result E A → Panic → Outcome A
expect_ok (ok a) p = ok a
expect_ok (err e) p = err p

-- `Result::ok`.
abbrev pub to_option {ℓ κ} : {E : Type ℓ} {A : Type κ} → Result E A → Option A
to_option (ok a) = some a
to_option (err e) = none

pub assert-eq-ok : (b : Bool) (p : Panic) {u : Unit {0}} → assert b p ≡ ok u → b ≡ true
assert-eq-ok true p h = refl
assert-eq-ok false p h = cc

pub expect-eq-ok {ℓ} :
    {A : Type ℓ} (o : Option A) (p : Panic) {a : A} → expect o p ≡ ok a → o ≡ some a
expect-eq-ok none p h = cc
expect-eq-ok (some a) p h = cc

pub expect_ok-eq-ok {ℓ κ} :
    {E : Type ℓ} {A : Type κ} (r : Result E A) (p : Panic) {a : A} → expect_ok r p ≡ ok a → r ≡ ok a
expect_ok-eq-ok (ok a) p h = cc
expect_ok-eq-ok (err e) p h = cc

-- The inversion of a bind and of an assertion that succeed, with what follows as a continuation.
pub bind_ok {ℓ κ ι ν} :
    {E : Type ℓ} {A : Type κ} {B : Type ι} {C : Type ν} (m : Result E A) (f : A → Result E B)
    {b : B}
    → (m >>= f) ≡ ok b
    → ((a : A) → m ≡ ok a → f a ≡ ok b → C)
    → C
bind_ok (ok a) f h k = k a refl h
bind_ok (err e) f h k = absurd (cc)

pub assert_ok {ι ν} :
    {B : Type ι} {C : Type ν} (t : Bool) (p : Panic) (m : Outcome B) {b : B}
    → (assert t p >> m) ≡ ok b
    → (t ≡ true → m ≡ ok b → C)
    → C
assert_ok true p m h k = k refl h
assert_ok false p m h k = absurd (cc)

-- The inversion of a branch.
pub if_ok {ℓ κ ι} :
    {E : Type ℓ} {B : Type κ} {C : Type ι} (t : Bool) (m n : Result E B) {b : B}
    → (if t then m else n) ≡ ok b
    → (t ≡ true → m ≡ ok b → C)
    → (t ≡ false → n ≡ ok b → C)
    → C
if_ok true m n h k l = k refl h
if_ok false m n h k l = l refl h

pub ok_unique {ℓ κ} :
    {E : Type ℓ} {A : Type κ} {a b : A} {r : Result E A} → r ≡ ok a → r ≡ ok b → a ≡ b
ok_unique h k = cc

-- The two ways in which a result can be, with the equation.
pub Result-cases {ℓ κ} :
    {E : Type ℓ} {A : Type κ} (r : Result E A) → ((a : A) × (r ≡ ok a)) ⊎ ((e : E) × (r ≡ err e))
Result-cases (ok a) = inl (a, refl)
Result-cases (err e) = inr (e, refl)
