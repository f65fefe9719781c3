-- ===== src/Bytes.antt =====
-- Byte strings: fixed-width big-endian numbers, slices, and machine subtraction.
pub mod Laws
use malda_lending_fuzz.Prelude.{
  ℕ, zero, suc, ◌+◌, ◌-◌, ◌*◌, ◌/◌, ◌%◌, ◌^◌, Bool, true, false, ◌&&◌, List, [], ◌∷◌, ◌++◌, length,
  take, drop, ltb, leb, if◌then◌else◌, Outcome, ok, err, slice_out_of_range, arithmetic_overflow,
}

-- A byte string holds numbers below 256.
abbrev pub Bytes : Type 0
Bytes = List ℕ

-- A 20-byte address, a 32-byte word and a 256-bit unsigned integer, as numbers.
abbrev pub Address : Type 0
Address = ℕ

abbrev pub B256 : Type 0
B256 = ℕ

abbrev pub U256 : Type 0
U256 = ℕ

-- `to_be_bytes`: the `width` low bytes of `n`, the highest first.
unfoldable pub to_be_bytes : ℕ → ℕ → Bytes
to_be_bytes zero n = []
to_be_bytes (suc width) n = to_be_bytes width (n / 256) ++ (n % 256) ∷ []

from_be_loop : ℕ → Bytes → ℕ
from_be_loop acc [] = acc
from_be_loop acc (b ∷ bs) = from_be_loop (acc * 256 + b) bs

-- `from_be_bytes`.
unfoldable pub from_be_bytes : Bytes → ℕ
unfolding from_be_loop
from_be_bytes bs = from_be_loop 0 bs

-- `&bytes[start..end]`, with its bounds check.
unfoldable pub slice : Bytes → ℕ → ℕ → Outcome Bytes
slice bytes start end =
    if leb start end && leb end (length bytes)
    then ok (take (end - start) (drop start bytes))
    else err slice_out_of_range

-- `a - b` on an unsigned type of `bits` bits: with overflow checks (a debug build) it panics below
-- zero, without (a release build) it wraps.
unfoldable pub sub_uint : Bool → ℕ → ℕ → ℕ → Outcome ℕ
sub_uint checks bits a b =
    if leb b a
    then ok (a - b)
    else if checks
    then err arithmetic_overflow
    else ok (a + 2 ^ bits - b)

-- `a + b` on an unsigned type of `bits` bits.
unfoldable pub add_uint : Bool → ℕ → ℕ → ℕ → Outcome ℕ
add_uint checks bits a b =
    if ltb (a + b) (2 ^ bits)
    then ok (a + b)
    else if checks
    then err arithmetic_overflow
    else ok ((a + b) % 2 ^ bits)
