-- ===== src/Base/Bits.antt =====
-- The native bit operations at variables: their digit recursion, and bit `k` of a word.
use Prim.Native.Nat.{
  ℕ, zero, suc, ◌+◌, ◌-◌, ◌*◌, ◌/◌, ◌%◌, ◌^◌, ◌≤◌, ◌<◌, min, max, bit_and, bit_or, bit_xor, differ,
  digits, bitwise, bit_and-bitwise, bit_or-bitwise, bit_xor-bitwise,
}
use mathlib.Core.Path.{◌≡◌, refl, ap}
use native.Mathlib.Nat.{le_refl, pow-suc, one-le-pow}
use native.Mathlib.Omega.{arith}
use libcrpm.Base.Test.{◌==◌, if◌then◌else◌}

-- Fuel from the first word on is enough, and a bitwise operation whose case of a zero is itself a
-- step takes one step at every word.
module _ (of_zero : ℕ → ℕ) (digit : ℕ → ℕ → ℕ) where
  enough_fuel :
      (x y fuel : ℕ)
      → x ≤ fuel
      → (more : ℕ) → x ≤ more
      → digits of_zero digit more x y ≡ digits of_zero digit fuel x y
  enough_fuel zero y zero h zero k = refl
  enough_fuel zero y zero h (suc more) k = refl
  enough_fuel zero y (suc fuel) h zero k = refl
  enough_fuel zero y (suc fuel) h (suc more) k = refl
  enough_fuel (suc x) y zero h more k = absurd (omega arith)
  enough_fuel (suc x) y (suc fuel) h zero k = absurd (omega arith)
  enough_fuel (suc x) y (suc fuel) h (suc more) k =
      ap (λ (rest : ℕ). rest * 2 + digit (suc x % 2) (y % 2))
        (enough_fuel (suc x / 2) (y / 2) fuel (omega arith) more (omega arith))

  bitwise_step :
      (zero_step : (y : ℕ) → of_zero y ≡ of_zero (y / 2) * 2 + digit 0 (y % 2)) (x y : ℕ)
      → bitwise of_zero digit x y
        ≡ bitwise of_zero digit (x / 2) (y / 2) * 2 + digit (x % 2) (y % 2)
  bitwise_step zero_step zero y = zero_step y
  bitwise_step zero_step (suc x) y =
      ap (λ (rest : ℕ). rest * 2 + digit (suc x % 2) (y % 2))
        (enough_fuel (suc x / 2) (y / 2) (suc x / 2) (omega arith) x (omega arith))

pub bit_or_step : (x y : ℕ) → bit_or x y ≡ bit_or (x / 2) (y / 2) * 2 + max (x % 2) (y % 2)
bit_or_step x y = simp bit_or-bitwise (bitwise_step (λ w. w) max (λ w. omega arith) x y)

pub bit_and_step : (x y : ℕ) → bit_and x y ≡ bit_and (x / 2) (y / 2) * 2 + min (x % 2) (y % 2)
bit_and_step x y = simp bit_and-bitwise (bitwise_step (λ w. 0) min (λ w. omega arith) x y)

pub bit_xor_step : (x y : ℕ) → bit_xor x y ≡ bit_xor (x / 2) (y / 2) * 2 + differ (x % 2) (y % 2)
bit_xor_step x y = simp bit_xor-bitwise (bitwise_step (λ w. w) differ (λ w. omega arith) x y)

differ_lem : (x y : ℕ) → x < 2 → y < 2 → differ x y ≡ (if x == y then 0 else 1)
differ_lem zero zero hx hy = refl
differ_lem zero (suc zero) hx hy = refl
differ_lem zero (suc (suc y)) hx hy = absurd (omega arith)
differ_lem (suc zero) zero hx hy = refl
differ_lem (suc zero) (suc zero) hx hy = refl
differ_lem (suc zero) (suc (suc y)) hx hy = absurd (omega arith)
differ_lem (suc (suc x)) y hx hy = absurd (omega arith)

-- Bit `k` of a word, as 0 or 1.
unfoldable pub bit_at : ℕ → ℕ → ℕ
bit_at a zero = a % 2
bit_at a (suc k) = bit_at (a / 2) k

pub bit_at-lt : (a k : ℕ) → bit_at a k < 2
unfolding bit_at
bit_at-lt a zero = omega arith
bit_at-lt a (suc k) = bit_at-lt (a / 2) k

pub zero-bit_at : (k : ℕ) → bit_at 0 k ≡ 0
unfolding bit_at
zero-bit_at zero = refl
zero-bit_at (suc k) = zero-bit_at k

bit_and-none : (x size : ℕ) → x ≤ size → bit_and x 0 ≡ 0
bit_and-none zero size small = refl
bit_and-none (suc x) zero small = absurd (omega arith)
bit_and-none (suc x) (suc size) small =
    omega (arith, bit_and-none (suc x / 2) size (omega arith), bit_and_step (suc x) 0)

-- A mask of the one bit `k` keeps that bit.
pub bit_and_one_bit : (k a : ℕ) → bit_and a (2 ^ k) ≡ bit_at a k * 2 ^ k
unfolding bit_at
bit_and_one_bit zero a = omega (arith, bit_and_step a 1, bit_and-none (a / 2) (a / 2) (le_refl _))
bit_and_one_bit (suc k) a = ground (
  arith,
  bit_and_step a (2 ^ suc k),
  pow-suc 2 k,
  ap (λ (t : ℕ). bit_at (a / 2) k * t) (pow-suc 2 k),
  bit_and_one_bit k (a / 2),
)

pub bit_at-bit_or : (k a b : ℕ) → bit_at (bit_or a b) k ≡ max (bit_at a k) (bit_at b k)
unfolding bit_at
bit_at-bit_or zero a b = omega (arith, bit_or_step a b)
bit_at-bit_or (suc k) a b =
    let half : bit_or a b / 2 ≡ bit_or (a / 2) (b / 2) = omega (arith, bit_or_step a b) in
    rw half (bit_at-bit_or k (a / 2) (b / 2))

pub bit_at-bit_and : (k a b : ℕ) → bit_at (bit_and a b) k ≡ min (bit_at a k) (bit_at b k)
unfolding bit_at
bit_at-bit_and zero a b = omega (arith, bit_and_step a b)
bit_at-bit_and (suc k) a b =
    let half : bit_and a b / 2 ≡ bit_and (a / 2) (b / 2) = omega (arith, bit_and_step a b) in
    rw half (bit_at-bit_and k (a / 2) (b / 2))

half_pow : (k : ℕ) → 2 ^ suc k / 2 ≡ 2 ^ k
half_pow k = omega (arith, pow-suc 2 k)

pub bit_at-pow : (k j : ℕ) → bit_at (2 ^ k) j ≡ (if k == j then 1 else 0)
unfolding bit_at
bit_at-pow zero zero = refl
bit_at-pow zero (suc j) = ground (arith, zero-bit_at j)
bit_at-pow (suc k) zero = ground (arith, pow-suc 2 k)
bit_at-pow (suc k) (suc j) = rw half_pow (ground (arith, bit_at-pow k j))

pub zero-bit_and : (b : ℕ) → bit_and 0 b ≡ 0
zero-bit_and b = bit_and-bitwise 0 b

bit_xor-none : (x size : ℕ) → x ≤ size → bit_xor x 0 ≡ x
bit_xor-none zero size small = refl
bit_xor-none (suc x) zero small = absurd (omega arith)
bit_xor-none (suc x) (suc size) small = ground (
  arith,
  bit_xor-none (suc x / 2) size (omega arith),
  bit_xor_step (suc x) 0,
  differ_lem (suc x % 2) 0,
)

-- Exclusive or with a mask of one set bit takes the bit out.
pub bit_xor_one_bit : (k a : ℕ) → bit_at a k ≡ 1 → bit_xor a (2 ^ k) + 2 ^ k ≡ a
unfolding bit_at
bit_xor_one_bit zero a h =
    ground (arith, bit_xor_step a 1, bit_xor-none (a / 2) (a / 2) (le_refl _), differ_lem (a % 2) 1)
bit_xor_one_bit (suc k) a h = ground (
  arith,
  bit_xor_step a (2 ^ suc k),
  pow-suc 2 k,
  ap (λ t. bit_xor (a / 2) t) (half_pow k),
  bit_xor_one_bit k (a / 2) h,
  differ_lem (a % 2) 0,
)

pub bit_at-bit_xor :
    (k a b : ℕ) → bit_at (bit_xor a b) k ≡ (if bit_at a k == bit_at b k then 0 else 1)
unfolding bit_at
bit_at-bit_xor zero a b = ground (arith, bit_xor_step a b, differ_lem (a % 2) (b % 2))
bit_at-bit_xor (suc k) a b =
    let half : bit_xor a b / 2 ≡ bit_xor (a / 2) (b / 2) =
      ground (arith, bit_xor_step a b, differ_lem (a % 2) (b % 2)) in
    rw half (bit_at-bit_xor k (a / 2) (b / 2))

pub bit_or-lt : (n x y : ℕ) → x < 2 ^ n → y < 2 ^ n → bit_or x y < 2 ^ n
bit_or-lt zero x y hx hy =
    let ex : x ≡ 0 = omega arith in let ey : y ≡ 0 = omega arith in rw (ex, ey) (omega arith)
bit_or-lt (suc n) x y hx hy =
    ground (arith, bit_or_step x y, pow-suc 2 n, bit_or-lt n (x / 2) (y / 2))

pub pow-lt : (n k : ℕ) → k < n → 2 ^ k < 2 ^ n
pow-lt zero k h = absurd (omega arith)
pow-lt (suc n) zero h = omega (arith, pow-suc 2 n, one-le-pow n 2)
pow-lt (suc n) (suc k) h = omega (arith, pow-suc 2 n, pow-suc 2 k, pow-lt n k (omega arith))

pub bit_at-complement : (n a k : ℕ) → a < 2 ^ n → k < n → bit_at (2 ^ n - 1 - a) k ≡ 1 - bit_at a k
unfolding bit_at
bit_at-complement zero a k small lt = absurd (omega (arith, lt))
bit_at-complement (suc n) a zero small lt =
    let double : 2 ^ suc n ≡ 2 ^ n * 2 = omega (arith, pow-suc 2 n) in omega (arith, double, small)
bit_at-complement (suc n) a (suc k) small lt =
    let double : 2 ^ suc n ≡ 2 ^ n * 2 = omega (arith, pow-suc 2 n) in
    let half : (2 ^ suc n - 1 - a) / 2 ≡ 2 ^ n - 1 - a / 2 = omega (arith, double, small) in
    rw half (bit_at-complement n (a / 2) k (omega (arith, double, small)) (omega (arith, lt)))
