-- ===== src/Base/Int.antt =====
-- C's signed return values over the native numbers: a status is a count or a negative error code.
use Prim.Native.Nat.{ℕ, zero, ◌-◌, ◌%◌}
use mathlib.Core.Path.{◌≡◌, refl}
use mathlib.Core.Logic.{◌⊎◌, inl, inr}
use native.Mathlib.Omega.{arith}
use meta_bisdn_linux.Base.Tests.{◌==◌}
use mathlib.Core.Bool.{Bool, true, false}

-- `negsuc n` is -(n + 1).
pub data ℤ : Type 0 where
  pos : ℕ → ℤ
  negsuc : ℕ → ℤ

-- `x < 0`
abbrev pub is_neg : ℤ → Bool
is_neg (pos _) = false
is_neg (negsuc _) = true

-- `x == 0`, as C reads an `int` as a truth value
abbrev pub is_zero : ℤ → Bool
is_zero (pos zero) = true
is_zero _ = false

-- `x == y`
abbrev pub eq_ℤ : ℤ → ℤ → Bool
eq_ℤ (pos m) (pos n) = m == n
eq_ℤ (negsuc m) (negsuc n) = m == n
eq_ℤ (pos m) (negsuc n) = false
eq_ℤ (negsuc m) (pos n) = false

pub eq_ℤ_refl : (a : ℤ) → eq_ℤ a a ≡ true
eq_ℤ_refl (pos m) = ground arith
eq_ℤ_refl (negsuc m) = ground arith

pub eq_of_eq_ℤ : (a b : ℤ) → eq_ℤ a b ≡ true → a ≡ b
eq_of_eq_ℤ a b h = ground arith

-- The low byte of an `int`, which is all of it that goes into a `u8`.
abbrev pub low_byte : ℤ → ℕ
low_byte (pos n) = n % 256
low_byte (negsuc k) = 255 - k % 256

pub ℤ-cases : (x : ℤ) → ((k : ℕ) × (x ≡ negsuc k)) ⊎ ((n : ℕ) × (x ≡ pos n))
ℤ-cases (negsuc k) = inl (k, refl)
ℤ-cases (pos n) = inr (n, refl)
