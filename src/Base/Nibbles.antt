-- ===== src/Base/Nibbles.antt =====
-- The low four bits of a byte.
use Prim.Native.Nat.{◌-◌, ◌≤◌, ℕ, zero, suc, ◌/◌, ◌%◌, ◌^◌, ◌<◌, bit_and}
use mathlib.Core.Path.{◌≡◌}
use mathlib.Core.Bool.{Bool, true, false}
use native.Mathlib.Nat.{pow-le-pow_right}
use native.Mathlib.Omega.{arith}
use meta_bisdn_linux.Base.Bits.{bit, bit_and_halves, bit_and-le, bit_or-lt}
use meta_bisdn_linux.Base.Bytes.{with_bit}

pub bit_and-nibble : (x : ℕ) → bit_and x 15 ≡ x % 16
bit_and-nibble x = omega (
  arith,
  bit_and_halves x 15,
  bit_and_halves (x / 2) 7,
  bit_and_halves (x / 2 / 2) 3,
  bit_and_halves (x / 2 / 2 / 2) 1,
  bit_and-le (x / 2 / 2 / 2 / 2) 0,
)

pub bit-nibble : (x i : ℕ) → i < 4 → bit (x % 16) i ≡ bit x i
unfolding bit
bit-nibble x zero h = omega arith
bit-nibble x (suc zero) h = omega arith
bit-nibble x (suc (suc zero)) h = omega arith
bit-nibble x (suc (suc (suc zero))) h = omega arith
bit-nibble x (suc (suc (suc (suc i)))) h = absurd (omega arith)

-- Setting or clearing some of the low four bits leaves no others.
low_mask : (asked : Bool) (mask x : ℕ) → mask < 16 → x < 16 → with_bit asked mask x < 16
low_mask true mask x h h' = bit_or-lt 4 x mask h' h
low_mask false mask x h h' = omega (arith, bit_and-le x (255 - mask))

pub with_bit-low : (asked : Bool) (i x : ℕ) → i < 4 → x < 16 → with_bit asked (2 ^ i) x < 16
with_bit-low asked i x h =
    let few : i ≤ 3 = omega arith in
    let small : 2 ^ i ≤ 2 ^ 3 = pow-le-pow_right (omega arith) few in
    low_mask asked (2 ^ i) x (omega arith)

pub with_bit-all : (asked : Bool) (x : ℕ) → x < 16 → with_bit asked 15 x < 16
with_bit-all asked x = low_mask asked 15 x (omega arith)
