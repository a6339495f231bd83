-- ===== src/Crypto/Xor.antt =====
-- Laws of `^` on unsigned integers, by its binary digits.
use Prim.Native.Nat.{
  ℕ, zero, suc, ◌+◌, ◌*◌, ◌/◌, ◌%◌, ◌^◌, ◌≤◌, ◌<◌, bit_xor, bit_xor-bitwise, digits, differ,
}
use mathlib.Core.Path.{◌≡◌, refl}
use native.Mathlib.Omega.{arith}
use native.Mathlib.Nat.{pow-suc}

module _ (z : ℕ → ℕ) (f : ℕ → ℕ → ℕ) where
  fuel_enough : (n m a b : ℕ) → a ≤ n → a ≤ m → digits z f n a b ≡ digits z f m a b
  fuel_enough zero zero a b p q = refl
  fuel_enough zero (suc m) zero b p q = refl
  fuel_enough zero (suc m) (suc a) b p q = absurd (omega arith)
  fuel_enough (suc n) zero zero b p q = refl
  fuel_enough (suc n) zero (suc a) b p q = absurd (omega arith)
  fuel_enough (suc n) (suc m) zero b p q = refl
  fuel_enough (suc n) (suc m) (suc a) b p q =
      rw (fuel_enough n m (suc a / 2) (b / 2) (omega arith) (omega arith))

differ_self : (y : ℕ) → y < 2 → differ 0 y ≡ y
differ_self zero h = refl
differ_self (suc zero) h = refl
differ_self (suc (suc y)) h = absurd (omega arith)

bit_xor-zero_left : (b : ℕ) → bit_xor 0 b ≡ b
bit_xor-zero_left b = bit_xor-bitwise 0 b

-- The lowest digit, and the others.
pub bit_xor_step : (a b : ℕ) → bit_xor a b ≡ bit_xor (a / 2) (b / 2) * 2 + differ (a % 2) (b % 2)
bit_xor_step zero b =
    omega (arith, bit_xor-zero_left b, bit_xor-zero_left (b / 2), differ_self (b % 2) (omega arith))
bit_xor_step (suc a) b = omega (
  arith,
  bit_xor-bitwise (suc a) b,
  bit_xor-bitwise (suc a / 2) (b / 2),
  fuel_enough (λ y. y) differ a (suc a / 2) (suc a / 2) (b / 2) (omega arith) (omega arith),
)

differ_bound : (x y : ℕ) → x < 2 → y < 2 → differ x y < 2
differ_bound zero zero h k = omega arith
differ_bound zero (suc zero) h k = omega arith
differ_bound (suc zero) zero h k = omega arith
differ_bound (suc zero) (suc zero) h k = omega arith
differ_bound (suc (suc x)) y h k = absurd (omega arith)
differ_bound zero (suc (suc y)) h k = absurd (omega arith)
differ_bound (suc zero) (suc (suc y)) h k = absurd (omega arith)

differ_cancel : (x y : ℕ) → x < 2 → y < 2 → differ (differ x y) y ≡ x
differ_cancel zero zero h k = refl
differ_cancel zero (suc zero) h k = refl
differ_cancel (suc zero) zero h k = refl
differ_cancel (suc zero) (suc zero) h k = refl
differ_cancel (suc (suc x)) y h k = absurd (omega arith)
differ_cancel zero (suc (suc y)) h k = absurd (omega arith)
differ_cancel (suc zero) (suc (suc y)) h k = absurd (omega arith)

bit_xor_half : (a b : ℕ) → bit_xor a b / 2 ≡ bit_xor (a / 2) (b / 2)
bit_xor_half a b =
    omega (arith, bit_xor_step a b, differ_bound (a % 2) (b % 2) (omega arith) (omega arith))

bit_xor_low : (a b : ℕ) → bit_xor a b % 2 ≡ differ (a % 2) (b % 2)
bit_xor_low a b =
    omega (arith, bit_xor_step a b, differ_bound (a % 2) (b % 2) (omega arith) (omega arith))

bit_xor_cancel_fuel : (n a b : ℕ) → a ≤ n → b ≤ n → bit_xor (bit_xor a b) b ≡ a
bit_xor_cancel_fuel zero zero zero h k = refl
bit_xor_cancel_fuel zero (suc a) b h k = absurd (omega arith)
bit_xor_cancel_fuel zero zero (suc b) h k = absurd (omega arith)
bit_xor_cancel_fuel (suc n) a b h k =
    let upper : bit_xor (bit_xor a b / 2) (b / 2) ≡ a / 2 =
      rw (bit_xor_half a b) (bit_xor_cancel_fuel n (a / 2) (b / 2) (omega arith) (omega arith)) in
    let lower : differ (bit_xor a b % 2) (b % 2) ≡ a % 2 =
      rw (bit_xor_low a b) (differ_cancel (a % 2) (b % 2) (omega arith) (omega arith)) in
    omega (arith, bit_xor_step (bit_xor a b) b, upper, lower)

-- The same mask twice gives the number back.
pub bit_xor_cancel : (a b : ℕ) → bit_xor (bit_xor a b) b ≡ a
bit_xor_cancel a b = bit_xor_cancel_fuel (a + b) a b (omega arith) (omega arith)

-- A `k`-bit result of `k`-bit numbers.
pub bit_xor_bound : (k a b : ℕ) → a < 2 ^ k → b < 2 ^ k → bit_xor a b < 2 ^ k
bit_xor_bound zero zero zero h g = omega arith
bit_xor_bound zero (suc a) b h g = absurd (omega arith)
bit_xor_bound zero zero (suc b) h g = absurd (omega arith)
bit_xor_bound (suc k) a b h g = omega (
  arith,
  pow-suc 2 k,
  bit_xor_half a b,
  bit_xor_bound k (a / 2) (b / 2) (omega (arith, pow-suc 2 k)) (omega (arith, pow-suc 2 k)),
)
