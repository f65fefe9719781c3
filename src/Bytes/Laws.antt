-- ===== src/Bytes/Laws.antt =====
-- Laws of the big-endian encoding and of slices.
use malda_lending_fuzz.Prelude.{
  ℕ, zero, suc, ◌+◌, ◌-◌, ◌*◌, ◌/◌, ◌%◌, ◌^◌, ◌≤◌, ◌<◌, ◌≡◌, refl, sym, ap, ◌∙◌, arith, Bool, [],
  ◌∷◌, ◌++◌, length, take, drop, length-append, take-append, drop-append, ok,
}
use malda_lending_fuzz.Bytes.{
  Bytes, to_be_bytes, from_be_loop, from_be_bytes, slice, sub_uint, add_uint,
}
use native.Mathlib.Nat.{div-add-mod, pow-suc, mod-lt, mod-eq_of_lt, mul-add-mod_self_left, mul_comm}

pub length-to_be_bytes : (width n : ℕ) → length (to_be_bytes width n) ≡ width
unfolding to_be_bytes
length-to_be_bytes zero n = refl
length-to_be_bytes (suc width) n = omega (
  arith,
  length-append (to_be_bytes width (n / 256)) ((n % 256) ∷ []),
  length-to_be_bytes width (n / 256),
)

from_be_loop-append :
    (acc : ℕ) (xs ys : Bytes) → from_be_loop acc (xs ++ ys) ≡ from_be_loop (from_be_loop acc xs) ys
unfolding from_be_loop
from_be_loop-append acc [] ys = refl
from_be_loop-append acc (x ∷ xs) ys = from_be_loop-append (acc * 256 + x) xs ys

pow-pos : (width : ℕ) → 0 < 256 ^ width
pow-pos zero = omega arith
pow-pos (suc width) = rw pow-suc (omega (arith, pow-pos width))

mod_split : (n m : ℕ) → 0 < m → n % (256 * m) ≡ n / 256 % m * 256 + n % 256
mod_split n m h =
    ap (λ (t : ℕ). t % (256 * m)) (regroup)
    ∙ mul-add-mod_self_left (256 * m) (n / 256 / m) (n / 256 % m * 256 + n % 256)
    ∙ mod-eq_of_lt (omega (arith, mod-lt (n / 256) h))
  where
    regroup : n ≡ 256 * m * (n / 256 / m) + (n / 256 % m * 256 + n % 256)
    regroup = omega (arith, div-add-mod (n / 256) m)

-- What is read back is the number cut to the width.
pub from_be_bytes-to_be_bytes :
    (width n : ℕ) → from_be_bytes (to_be_bytes width n) ≡ n % 256 ^ width
unfolding from_be_bytes to_be_bytes from_be_loop
from_be_bytes-to_be_bytes zero n = omega arith
from_be_bytes-to_be_bytes (suc width) n =
    from_be_loop-append 0 (to_be_bytes width (n / 256)) ((n % 256) ∷ [])
    ∙ rw (from_be_bytes-to_be_bytes width (n / 256)) (
        sym (
          rw (pow-suc 256 width, mul_comm (256 ^ width) 256)
            (mod_split n (256 ^ width) (pow-pos width))))

pub slice-eq-ok :
    (bytes : Bytes) (start end : ℕ)
    → start ≤ end
    → end ≤ length bytes
    → slice bytes start end ≡ ok (take (end - start) (drop start bytes))
unfolding slice
slice-eq-ok bytes start end h k = ground arith

-- A slice that starts behind `xs` and covers `ys` is `ys`.
pub slice-append :
    (xs ys zs : Bytes) (start end : ℕ)
    → length xs ≡ start
    → length xs + length ys ≡ end
    → slice (xs ++ (ys ++ zs)) start end ≡ ok ys
slice-append xs ys zs start end p q =
    slice-eq-ok (xs ++ (ys ++ zs)) start end (omega arith)
      (omega (arith, length-append xs (ys ++ zs), length-append ys zs))
    ∙ ap ok (rw (← q, ← p, drop-append xs (ys ++ zs), width) (take-append ys zs))
  where
    width : length xs + length ys - length xs ≡ length ys
    width = omega arith

-- A subtraction that does not pass zero is the same with and without overflow checks.
pub sub_uint-eq-ok : (checks : Bool) (bits a b : ℕ) → b ≤ a → sub_uint checks bits a b ≡ ok (a - b)
unfolding sub_uint
sub_uint-eq-ok checks bits a b h = ground arith

pub add_uint-eq-ok :
    (checks : Bool) (bits a b : ℕ) → a + b < 2 ^ bits → add_uint checks bits a b ≡ ok (a + b)
unfolding add_uint
add_uint-eq-ok checks bits a b small = ground arith
