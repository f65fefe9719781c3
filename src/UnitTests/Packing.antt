-- ===== src/UnitTests/Packing.antt =====
-- The unit test of crates/malda_utils/src/types.rs.
use malda_lending_fuzz.Prelude.{
  ◌-◌, ◌^◌, ◌≡◌, refl, [], ◌∷◌, length, ◌==◌, Outcome, ok, ◌>>=◌, ◌>>◌, assert, assertion_failed,
}
use malda_lending_fuzz.Bytes.{to_be_bytes}
use malda_lending_fuzz.Externals.{Externals}
use malda_lending_fuzz.Types.Abi.{number_with_shift, encode_packed}
use malda_lending_fuzz.Types.Abi.Laws.{pack-number_with_shift}
use malda_lending_fuzz.Fuzz.Commitment.{bytes_eq}

module _ (X : Externals) where
  test_number_with_shift_truncation : Outcome (Unit {0})
  test_number_with_shift_truncation = do
    (encoded_bytes, _) ← encode_packed X (number_with_shift (2 ^ 32) 32 ∷ [])
    assert (length encoded_bytes == 4) assertion_failed
    assert (bytes_eq encoded_bytes (to_be_bytes 4 0)) assertion_failed
    (encoded_max_bytes, _) ← encode_packed X (number_with_shift (2 ^ 32 - 1) 32 ∷ [])
    assert (bytes_eq encoded_max_bytes (to_be_bytes 4 (2 ^ 32 - 1))) assertion_failed

  -- The test passes for either width of `usize` and either build profile.
  number_with_shift_truncation_passes : test_number_with_shift_truncation ≡ ok tt
  unfolding test_number_with_shift_truncation encode_packed bytes_eq to_be_bytes
  number_with_shift_truncation_passes =
      rw (pack-number_with_shift X (2 ^ 32), pack-number_with_shift X (2 ^ 32 - 1)) refl
