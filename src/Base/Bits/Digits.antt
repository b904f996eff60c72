-- ===== src/Base/Bits/Digits.antt =====
-- The native bit operations on the lowest binary digit and the rest: their definition carries a
-- bound on the number of digits, which is dropped here.
use Prim.Native.Nat.{
  ℕ, zero, suc, ◌+◌, ◌*◌, ◌/◌, ◌%◌, ◌≤◌, min, max, differ, digits, bitwise, bit_and, bit_or,
  bit_xor, bit_and-bitwise, bit_or-bitwise, bit_xor-bitwise,
}
use mathlib.Core.Path.{◌≡◌, refl, ap}
use native.Mathlib.Omega.{arith}

module _ (rest : ℕ → ℕ) (bit : ℕ → ℕ → ℕ) where
  -- Any two bounds that are large enough give the same digits.
  digits_bound : (n m a b : ℕ) → a ≤ n → a ≤ m → digits rest bit n a b ≡ digits rest bit m a b
  digits_bound zero zero a b hn hm = refl
  digits_bound zero (suc m) zero b hn hm = refl
  digits_bound zero (suc m) (suc a) b hn hm = absurd (omega arith)
  digits_bound (suc n) zero zero b hn hm = refl
  digits_bound (suc n) zero (suc a) b hn hm = absurd (omega arith)
  digits_bound (suc n) (suc m) zero b hn hm = refl
  digits_bound (suc n) (suc m) (suc a) b hn hm =
      ap (λ (t : ℕ). t * 2 + bit (suc a % 2) (b % 2))
        (digits_bound n m (suc a / 2) (b / 2) (omega arith) (omega arith))

  bitwise_digit :
      (a b : ℕ)
      → bitwise rest bit (suc a) b
        ≡ bitwise rest bit (suc a / 2) (b / 2) * 2 + bit (suc a % 2) (b % 2)
  bitwise_digit a b =
      ap (λ (t : ℕ). t * 2 + bit (suc a % 2) (b % 2))
        (digits_bound a (suc a / 2) (suc a / 2) (b / 2) (omega arith) (omega arith))

pub and_step : (a b : ℕ) → bit_and a b ≡ bit_and (a / 2) (b / 2) * 2 + min (a % 2) (b % 2)
and_step zero b = simp bit_and-bitwise (omega arith)
and_step (suc a) b = simp bit_and-bitwise (bitwise_digit (λ y. 0) min a b)

pub or_step : (a b : ℕ) → bit_or a b ≡ bit_or (a / 2) (b / 2) * 2 + max (a % 2) (b % 2)
or_step zero b = simp bit_or-bitwise (omega arith)
or_step (suc a) b = simp bit_or-bitwise (bitwise_digit (λ y. y) max a b)

pub xor_step : (a b : ℕ) → bit_xor a b ≡ bit_xor (a / 2) (b / 2) * 2 + differ (a % 2) (b % 2)
xor_step zero b = simp bit_xor-bitwise (omega arith)
xor_step (suc a) b = simp bit_xor-bitwise (bitwise_digit (λ y. y) differ a b)
