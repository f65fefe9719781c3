-- ===== src/Types/Abi/Laws.antt =====
-- The packed encoding of a number cut to its last bytes.
use malda_lending_fuzz.Prelude.{
  [], ◌∷◌, Bool, true, false, ℕ, zero, suc, ◌+◌, ◌/◌, ◌^◌, ◌≡◌, refl, sym, ap, arith, ◌++◌, length,
  drop, drop-append, ok,
}
use malda_lending_fuzz.Bytes.{Bytes, to_be_bytes}
use malda_lending_fuzz.Bytes.Laws.{length-to_be_bytes, sub_uint-eq-ok}
use malda_lending_fuzz.Externals.{Externals}
use malda_lending_fuzz.Types.Abi.{address, bool, number, number_with_shift, pack}
use mathlib.Core.List.{append-nil, append_assoc}
use native.Mathlib.Nat.{add-zero, div-one, add-suc, div-div-eq-div-mul, pow-succ'}

pub to_be_bytes-add :
    (k w n : ℕ) → to_be_bytes (k + w) n ≡ to_be_bytes k (n / 256 ^ w) ++ to_be_bytes w n
unfolding to_be_bytes
to_be_bytes-add k zero n = rw (add-zero, append-nil) (ap (to_be_bytes k) (sym (div-one n)))
to_be_bytes-add k (suc w) n =
    rw (add-suc, to_be_bytes)
      (rw (to_be_bytes-add k w (n / 256), append_assoc, div-div-eq-div-mul, ← pow-succ' 256 w) refl)

pub drop-to_be_bytes : (k w n : ℕ) → drop k (to_be_bytes (k + w) n) ≡ to_be_bytes w n
drop-to_be_bytes k w n =
    rw to_be_bytes-add (skip (to_be_bytes k (n / 256 ^ w)) (length-to_be_bytes k (n / 256 ^ w)))
  where
    skip : (xs : Bytes) → length xs ≡ k → drop k (xs ++ to_be_bytes w n) ≡ to_be_bytes w n
    skip xs e = rw (← e) (drop-append xs (to_be_bytes w n))

-- `NumberWithShift(n, TakeLastXBytes(32))` packs the four last bytes of the number.
pub pack-number_with_shift :
    (X : Externals) (n : ℕ) → pack X (number_with_shift n 32) ≡ ok (to_be_bytes 4 n)
unfolding pack
pack-number_with_shift X n =
    rw (length-to_be_bytes, sub_uint-eq-ok X.overflow_checks X.usize_bits 32 4 (omega arith))
      (ap ok (drop-to_be_bytes 28 4 n))

pub pack-address : (X : Externals) (a : ℕ) → pack X (address a) ≡ ok (to_be_bytes 20 a)
unfolding pack
pack-address X a = refl

pub pack-number : (X : Externals) (n : ℕ) → pack X (number n) ≡ ok (to_be_bytes 32 n)
unfolding pack
pack-number X n = refl

abbrev pub flag_byte : Bool → ℕ
flag_byte true = 1
flag_byte false = 0

pub pack-bool : (X : Externals) (b : Bool) → pack X (bool b) ≡ ok (flag_byte b ∷ [])
unfolding pack
pack-bool X true = refl
pack-bool X false = refl
