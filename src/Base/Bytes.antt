-- ===== src/Base/Bytes.antt =====
-- The bits of bytes, and of bytes in a word.
use Prim.Native.Nat.{ℕ, zero, suc, ◌+◌, ◌-◌, ◌*◌, ◌/◌, ◌%◌, ◌^◌, ◌≤◌, ◌<◌, bit_and, bit_or}
use mathlib.Core.Path.{◌≡◌, refl, ap, subst, ◌∙◌}
use mathlib.Core.Logic.{inl, inr}
use mathlib.Core.Bool.{Bool, true, false, ◌&&◌}
use native.Mathlib.Nat.{mul-div_cancel, pow-le-pow_right}
use native.Mathlib.Omega.{arith}
use meta_bisdn_linux.Base.Tests.{ltb, ◌==◌, if◌then◌else◌, Bool-cases}
use meta_bisdn_linux.Base.Bits.{
  bit, bit-le, bit-bit_or, bit-bit_and, bit-two_pow, bit-shifted, bit-shifted_below, bit-above,
  bit_and-two_pow, two_pow-positive,
}

-- The bits of the low byte.
pub bit-low : (x i : ℕ) → i < 8 → bit (x % 256) i ≡ bit x i
unfolding bit
bit-low x zero h = omega arith
bit-low x (suc zero) h = omega arith
bit-low x (suc (suc zero)) h = omega arith
bit-low x (suc (suc (suc zero))) h = omega arith
bit-low x (suc (suc (suc (suc zero)))) h = omega arith
bit-low x (suc (suc (suc (suc (suc zero))))) h = omega arith
bit-low x (suc (suc (suc (suc (suc (suc zero)))))) h = omega arith
bit-low x (suc (suc (suc (suc (suc (suc (suc zero))))))) h = omega arith
bit-low x (suc (suc (suc (suc (suc (suc (suc (suc i)))))))) h = absurd (omega arith)

-- The bits of the complement of a byte.
pub bit-inverted : (x i : ℕ) → x < 256 → i < 8 → bit (255 - x) i ≡ 1 - bit x i
unfolding bit
bit-inverted x zero b h = omega arith
bit-inverted x (suc zero) b h = omega arith
bit-inverted x (suc (suc zero)) b h = omega arith
bit-inverted x (suc (suc (suc zero))) b h = omega arith
bit-inverted x (suc (suc (suc (suc zero)))) b h = omega arith
bit-inverted x (suc (suc (suc (suc (suc zero))))) b h = omega arith
bit-inverted x (suc (suc (suc (suc (suc (suc zero)))))) b h = omega arith
bit-inverted x (suc (suc (suc (suc (suc (suc (suc zero))))))) b h = omega arith
bit-inverted x (suc (suc (suc (suc (suc (suc (suc (suc i)))))))) b h = absurd (omega arith)

-- `~(1 << i)` in a byte.
bit-complement : (i j : ℕ) → i < 8 → j < 8 → bit (255 - 2 ^ i) j ≡ (if i == j then 0 else 1)
bit-complement i j h h' =
    let few : i ≤ 7 = omega arith in
    let small : 2 ^ i ≤ 2 ^ 7 = pow-le-pow_right (omega arith) few in
    bit-inverted (2 ^ i) j (omega arith) h' ∙ ap (λ b. 1 - b) (bit-two_pow i j) ∙ ground arith

-- Setting and clearing one bit of a byte.
pub bit-set : (x i j : ℕ) → bit (bit_or x (2 ^ i)) j ≡ (if i == j then 1 else bit x j)
bit-set x i j = ground (arith, bit-bit_or x (2 ^ i) j, bit-two_pow i j, bit-le x j)

pub bit-clear :
    (x i j : ℕ) → i < 8 → j < 8 → bit (bit_and x (255 - 2 ^ i)) j ≡ (if i == j then 0 else bit x j)
bit-clear x i j h h' =
    ground (arith, bit-bit_and x (255 - 2 ^ i) j, bit-complement i j h h', bit-le x j)

-- `value |= mask` or `value &= ~mask` of a byte.
abbrev pub with_bit : Bool → ℕ → ℕ → ℕ
with_bit true mask byte = bit_or byte mask
with_bit false mask byte = bit_and byte (255 - mask)

pub bit-with_bit :
    (asked : Bool) (byte i j : ℕ)
    → i < 8
    → j < 8
    → bit (with_bit asked (2 ^ i) byte) j
      ≡ (if i == j then (if asked then 1 else 0) else bit byte j)
bit-with_bit true byte i j h h' = bit-set byte i j
bit-with_bit false byte i j h h' = bit-clear byte i j h h'

-- The bits of a byte that stands in the byte `k` of a word, at the byte `q` of it.
pub bit-byte_at :
    (v k q j : ℕ)
    → v < 256
    → j < 8
    → bit (v * 2 ^ (8 * k)) (8 * q + j) ≡ (if k == q then bit v j else 0)
bit-byte_at v k q j b h = elim (Bool-cases (k == q)) [
  | inl same ↦
      let e : k ≡ q = ground arith in
      rw same (subst (λ x. bit (v * 2 ^ (8 * k)) (8 * x + j) ≡ bit v j) e (bit-shifted v (8 * k) j))
  | inr different ↦ rw different (elim (Bool-cases (ltb k q)) [
    | inl below ↦
        let e : 8 * q + j ≡ 8 * k + (8 * (q - k) + j) = ground arith in
        let past : 8 ≤ 8 * (q - k) + j = ground arith in
        rw e (bit-shifted v (8 * k) (8 * (q - k) + j) ∙ bit-above v 8 (8 * (q - k) + j) b past)
    | inr above ↦ bit-shifted_below v (8 * k) (8 * q + j) (ground arith)
  ])
]

-- One bit of one of many registers is written, from the byte that the register held.
pub bit-written :
    (f : ℕ → ℕ → ℕ) (asked : Bool) (addr reg i a r j : ℕ)
    → i < 8
    → j < 8
    → bit (if addr == a && reg == r then with_bit asked (2 ^ i) (f addr reg % 256) else f a r) j
      ≡ (if addr == a && reg == r && i == j then (if asked then 1 else 0) else bit (f a r) j)
bit-written f asked addr reg i a r j h h' =
    let v = f addr reg in
    let written : bit (with_bit asked (2 ^ i) (v % 256)) j
        ≡ (if i == j then (if asked then 1 else 0) else bit v j) =
      bit-with_bit asked (v % 256) i j h h'
      ∙ ap (λ x. if i == j then (if asked then 1 else 0) else x) (bit-low v j h') in
    elim (Bool-cases (addr == a)) [
      | inr other ↦ rw other refl
      | inl same ↦ elim (Bool-cases (reg == r)) [
        | inr other ↦ rw (same, other) refl
        | inl same' ↦
            let e : addr ≡ a = ground arith in
            let e' : reg ≡ r = ground arith in
            rw (same, same')
              (written
                ∙ ap (λ x. if i == j then (if asked then 1 else 0) else bit x j)
                    (ap (λ y. f y reg) e ∙ ap (λ y. f a y) e'))
      ]
    ]

-- A bit under its mask, moved to the lowest place.
pub masked_bit : (v i : ℕ) → i < 8 → bit_and (v % 256) (2 ^ i) / 2 ^ i ≡ bit v i
masked_bit v i h =
    ap (λ x. x / 2 ^ i) (bit_and-two_pow (v % 256) i)
    ∙ mul-div_cancel (bit (v % 256) i) (two_pow-positive i)
    ∙ bit-low v i h
