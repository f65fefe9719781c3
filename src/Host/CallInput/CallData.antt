-- ===== src/Host/CallInput/CallData.antt =====
-- The host's call data against the guest's.
use malda_lending_fuzz.Prelude.{
  ℕ, ◌/◌, ◌%◌, ◌^◌, ◌<◌, ◌≡◌, refl, ap, sym, ◌∙◌, arith, List, [], ◌∷◌, ◌++◌, map,
}
use malda_lending_fuzz.Bytes.{Address, to_be_bytes}
use malda_lending_fuzz.Types.Abi.Laws.{to_be_bytes-add}
use native.Mathlib.Nat.{mod-eq_of_lt}
use malda_lending_fuzz.Types.Contracts.{aggregate3}
use malda_lending_fuzz.Validators.Batch.{batch_params, call_data, query_call}
use malda_lending_fuzz.Host.CallInput.{host_call_data, host_call, host_multicall}

zeros-to_be_bytes :
    (n : ℕ) → n < 2 ^ 32 → to_be_bytes 28 0 ++ to_be_bytes 4 (n % 2 ^ 32) ≡ to_be_bytes 32 n
zeros-to_be_bytes n small =
    rw (mod-eq_of_lt small)
      (sym (to_be_bytes-add 28 4 n ∙ ap (λ t. to_be_bytes 28 t ++ to_be_bytes 4 n) high))
  where
    high : n / 256 ^ 4 ≡ 0
    high = omega arith

-- Every target chain identifier fits in 32 bits.
abbrev pub FitU32 : List ℕ → Type 0
FitU32 [] = Unit {0}
FitU32 (n ∷ ns) = (n < 2 ^ 32) × FitU32 ns

pub host_calls_lem :
    (users markets : List Address) (target_chain_ids : List ℕ)
    → FitU32 target_chain_ids
    → map host_call (batch_params users markets target_chain_ids)
      ≡ map query_call (batch_params users markets target_chain_ids)
unfolding batch_params host_call query_call host_call_data call_data
host_calls_lem [] markets targets fit = refl
host_calls_lem (u ∷ users) [] targets fit = refl
host_calls_lem (u ∷ users) (m ∷ markets) [] fit = refl
host_calls_lem (u ∷ users) (m ∷ markets) (t ∷ targets) (small, fit) =
    rw (zeros-to_be_bytes t small, host_calls_lem users markets targets fit) refl

-- For target chain identifiers below 2^32 the host makes, in its preflight, the very multicall that
-- the guest repeats.
pub host_multicall_lem :
    (users markets : List Address) (target_chain_ids : List ℕ)
    → FitU32 target_chain_ids
    → host_multicall users markets target_chain_ids
      ≡ aggregate3 (map query_call (batch_params users markets target_chain_ids))
unfolding host_multicall
host_multicall_lem users markets target_chain_ids fit =
    ap aggregate3 (host_calls_lem users markets target_chain_ids fit)
