-- ===== src/Base/Bits.antt =====
-- Single bits of a number, and what the native bit operations do to them.
use Prim.Native.Nat.{
  ℕ, zero, suc, ◌+◌, ◌-◌, ◌*◌, ◌/◌, ◌%◌, ◌^◌, ◌≤◌, ◌<◌, min, max, digits, bitwise, bit_and, bit_or,
  bit_and-bitwise, bit_or-bitwise,
}
use mathlib.Core.Path.{◌≡◌, refl, sym, ap, ◌∙◌}
use native.Mathlib.Nat.{pow-suc, div-div-eq-div-mul}
use native.Mathlib.Omega.{arith}
use meta_bisdn_linux.Base.Tests.{eq→==, ne→==, ◌==◌, if◌then◌else◌}

-- Bit `i` of `x`, as 0 or 1.
unfoldable pub bit : ℕ → ℕ → ℕ
bit x zero = x % 2
bit x (suc i) = bit (x / 2) i

pub bit-le : (x i : ℕ) → bit x i ≤ 1
unfolding bit
bit-le x zero = omega arith
bit-le x (suc i) = bit-le (x / 2) i

-- One round more than enough changes nothing, and so do any number of them.
one_more :
    (z : ℕ → ℕ) (f : ℕ → ℕ → ℕ) (n a b : ℕ) → a ≤ n → digits z f (suc n) a b ≡ digits z f n a b
one_more z f zero zero b h = refl
one_more z f (suc n) zero b h = refl
one_more z f zero (suc a) b h = absurd (omega arith)
one_more z f (suc n) (suc a) b h = rw (one_more z f n (suc a / 2) (b / 2) (omega arith)) refl

many_more :
    (z : ℕ → ℕ) (f : ℕ → ℕ → ℕ) (k n a b : ℕ) → a ≤ n → digits z f (k + n) a b ≡ digits z f n a b
many_more z f zero n a b h = let e : 0 + n ≡ n = omega arith in rw e refl
many_more z f (suc k) n a b h =
    let e : suc k + n ≡ suc (k + n) = omega arith in
    rw e (one_more z f (k + n) a b (omega arith) ∙ many_more z f k n a b h)

-- The lowest digit of a bitwise operation, and the others.
bitwise_halves :
    (z : ℕ → ℕ) (f : ℕ → ℕ → ℕ) (a b : ℕ)
    → bitwise z f (suc a) b ≡ bitwise z f (suc a / 2) (b / 2) * 2 + f (suc a % 2) (b % 2)
bitwise_halves z f a b =
    let half = suc a / 2 in
    let rounds : a - half + half ≡ a = omega arith in
    let enough = many_more z f (a - half) half half (b / 2) (omega arith) in
    ap (λ x. x * 2 + f (suc a % 2) (b % 2))
      (ap (λ m. digits z f m half (b / 2)) (sym rounds) ∙ enough)

pub bit_or_halves : (a b : ℕ) → bit_or a b ≡ max (a % 2) (b % 2) + 2 * bit_or (a / 2) (b / 2)
bit_or_halves zero b = simp bit_or-bitwise (omega arith)
bit_or_halves (suc a) b = simp bit_or-bitwise (omega (arith, bitwise_halves (λ y. y) max a b))

pub bit_and_halves : (a b : ℕ) → bit_and a b ≡ min (a % 2) (b % 2) + 2 * bit_and (a / 2) (b / 2)
bit_and_halves zero b = simp bit_and-bitwise (omega arith)
bit_and_halves (suc a) b = simp bit_and-bitwise (omega (arith, bitwise_halves (λ y. 0) min a b))

pub bit-bit_or : (a b i : ℕ) → bit (bit_or a b) i ≡ max (bit a i) (bit b i)
unfolding bit
bit-bit_or a b zero = omega (arith, bit_or_halves a b)
bit-bit_or a b (suc i) =
    let half : bit_or a b / 2 ≡ bit_or (a / 2) (b / 2) = omega (arith, bit_or_halves a b) in
    ap (λ x. bit x i) half ∙ bit-bit_or (a / 2) (b / 2) i

pub bit-bit_and : (a b i : ℕ) → bit (bit_and a b) i ≡ min (bit a i) (bit b i)
unfolding bit
bit-bit_and a b zero = omega (arith, bit_and_halves a b)
bit-bit_and a b (suc i) =
    let half : bit_and a b / 2 ≡ bit_and (a / 2) (b / 2) = omega (arith, bit_and_halves a b) in
    ap (λ x. bit x i) half ∙ bit-bit_and (a / 2) (b / 2) i

-- A bound, by as many halvings as `n`.
bit_and-le_halving : (n a b : ℕ) → a ≤ n → bit_and a b ≤ min a b
bit_and-le_halving zero a b h =
    let none_set : a ≡ 0 = omega arith in rw none_set (omega (arith, bit_and-bitwise 0 b))
bit_and-le_halving (suc n) a b h =
    omega (arith, bit_and_halves a b, bit_and-le_halving n (a / 2) (b / 2) (omega arith))

pub bit_and-le : (a b : ℕ) → bit_and a b ≤ min a b
bit_and-le a b = bit_and-le_halving a a b (omega arith)

pub bit_or-lt : (k a b : ℕ) → a < 2 ^ k → b < 2 ^ k → bit_or a b < 2 ^ k
bit_or-lt zero a b h h' =
    let e : a ≡ 0 = omega arith in let e' : b ≡ 0 = omega arith in rw (e, e') (omega arith)
bit_or-lt (suc k) a b h h' = omega (
  arith,
  bit_or_halves a b,
  pow-suc 2 k,
  bit_or-lt k (a / 2) (b / 2) (omega (arith, pow-suc 2 k)) (omega (arith, pow-suc 2 k)),
)

mul-two_pow : (q k : ℕ) → q * 2 ^ suc k ≡ 2 * (q * 2 ^ k)
mul-two_pow q k = omega (arith, ap (λ (t : ℕ). q * t) (pow-suc 2 k))

-- `x & (1 << i)`
pub bit_and-two_pow : (x i : ℕ) → bit_and x (2 ^ i) ≡ bit x i * 2 ^ i
unfolding bit
bit_and-two_pow x zero = omega (arith, bit_and_halves x 1, bit_and-le (x / 2) 0)
bit_and-two_pow x (suc i) =
    let double : 2 ^ suc i ≡ 2 * 2 ^ i = omega (arith, pow-suc 2 i) in
    let half : 2 ^ suc i / 2 ≡ 2 ^ i = omega arith in
    let rest = ap (λ m. bit_and (x / 2) m) half ∙ bit_and-two_pow (x / 2) i in
    let whole : bit (x / 2) i * 2 ^ suc i ≡ bit (x / 2) i * 2 ^ i * 2 =
      omega (arith, mul-two_pow (bit (x / 2) i) i) in
    omega (arith, bit_and_halves x (2 ^ suc i))

-- `x << k`
pub bit-shifted : (x k i : ℕ) → bit (x * 2 ^ k) (k + i) ≡ bit x i
unfolding bit
bit-shifted x zero i =
    let e : x * 2 ^ 0 ≡ x = omega arith in let e' : 0 + i ≡ i = omega arith in rw (e, e') refl
bit-shifted x (suc k) i =
    let e : suc k + i ≡ suc (k + i) = omega arith in
    let half : x * 2 ^ suc k / 2 ≡ x * 2 ^ k = omega (arith, mul-two_pow x k) in
    rw e (ap (λ y. bit y (k + i)) half ∙ bit-shifted x k i)

pub bit-shifted_below : (x k i : ℕ) → i < k → bit (x * 2 ^ k) i ≡ 0
unfolding bit
bit-shifted_below x zero i h = absurd (omega arith)
bit-shifted_below x (suc k) zero h = omega (arith, mul-two_pow x k)
bit-shifted_below x (suc k) (suc i) h =
    let half : x * 2 ^ suc k / 2 ≡ x * 2 ^ k = omega (arith, mul-two_pow x k) in
    rw half (bit-shifted_below x k i (omega arith))

-- A number below 2 ^ k has no bit from `k` on.
pub bit-above : (x k i : ℕ) → x < 2 ^ k → k ≤ i → bit x i ≡ 0
unfolding bit
bit-above x zero zero h le = omega arith
bit-above x zero (suc i) h le = bit-above (x / 2) zero i (omega arith) (omega arith)
bit-above x (suc k) zero h le = absurd (omega arith)
bit-above x (suc k) (suc i) h le = bit-above (x / 2) k i (omega (arith, pow-suc 2 k)) (omega arith)

pub bit-two_pow : (i j : ℕ) → bit (2 ^ i) j ≡ (if i == j then 1 else 0)
unfolding bit
bit-two_pow zero zero = refl
bit-two_pow zero (suc j) = ground (arith, bit-above 0 0 j)
bit-two_pow (suc i) zero = ground (arith, pow-suc 2 i)
bit-two_pow (suc i) (suc j) =
    let half : 2 ^ suc i / 2 ≡ 2 ^ i = omega (arith, pow-suc 2 i) in
    rw half (ground (arith, bit-two_pow i j))

-- Over a small range, check every value by evaluation.
pub bit-div : (x k i : ℕ) → bit (x / 2 ^ k) i ≡ bit x (k + i)
unfolding bit
bit-div x zero i =
    let e : x / 2 ^ 0 ≡ x = omega arith in let e' : 0 + i ≡ i = omega arith in rw (e, e') refl
bit-div x (suc k) i =
    let e : suc k + i ≡ suc (k + i) = omega arith in
    let half : x / 2 ^ suc k ≡ x / 2 / 2 ^ k =
      ap (λ d. x / d) (pow-suc' k) ∙ sym (div-div-eq-div-mul x 2 (2 ^ k)) in
    rw (e, half) (bit-div (x / 2) k i)
  where
    pow-suc' : (k : ℕ) → 2 ^ suc k ≡ 2 * 2 ^ k
    pow-suc' k = omega (arith, pow-suc 2 k)

pub two_pow-positive : (i : ℕ) → 0 < 2 ^ i
two_pow-positive zero = omega arith
two_pow-positive (suc i) = omega (arith, pow-suc 2 i, two_pow-positive i)

pub masked_zero : (b m : ℕ) → b ≤ 1 → 0 < m → (b * m == 0) ≡ (b == 0)
masked_zero zero m h p = rw (eq→== (0 * m) 0 (omega arith)) refl
masked_zero (suc zero) m h p = rw (ne→== (1 * m) 0 (λ e. absurd (omega arith))) refl
masked_zero (suc (suc b)) m h p = absurd (omega arith)
