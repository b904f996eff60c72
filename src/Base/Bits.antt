-- ===== src/Base/Bits.antt =====
-- Bit masks and fields as arithmetic, at every width.
mod Digits
use Digits.{and_step, or_step, xor_step}
use mathlib.Core.Path.{◌≡◌, refl, ap, ◌∙◌}
use native.Mathlib.Nat.{pow-suc, one-le-pow}
use native.Mathlib.Omega.{arith}
use Prim.Native.Nat.{
  ℕ, zero, suc, ◌+◌, ◌-◌, ◌*◌, ◌/◌, ◌%◌, ◌^◌, ◌≤◌, ◌<◌, bit_and, bit_or, bit_xor, min, max, differ,
  bit_and-bitwise, bit_or-bitwise, bit_xor-bitwise,
}

-- A number below `2 ^ k` behind `k` binary places, without its lowest digit.
mul_two_pow_suc : (q k : ℕ) → q * 2 ^ suc k ≡ 2 * (q * 2 ^ k)
mul_two_pow_suc q k = omega (arith, ap (λ (t : ℕ). q * t) (pow-suc 2 k))

module _ (op : ℕ → ℕ → ℕ) (bit : ℕ → ℕ → ℕ)
    (step : (a b : ℕ) → op a b ≡ op (a / 2) (b / 2) * 2 + bit (a % 2) (b % 2))
    (none_set : op 0 0 ≡ 0) where
  -- A digitwise operation works on the places above `k` and on those below one by one.
  op_append :
      (k q m r s : ℕ)
      → r < 2 ^ k
      → s < 2 ^ k
      → op (q * 2 ^ k + r) (m * 2 ^ k + s) ≡ op q m * 2 ^ k + op r s
  op_append zero q m r s hr hs = ground (arith, none_set)
  op_append (suc k) q m r s hr hs = ground (
    arith,
    step (q * 2 ^ suc k + r) (m * 2 ^ suc k + s),
    step r s,
    mul_two_pow_suc q k,
    mul_two_pow_suc m k,
    mul_two_pow_suc (op q m) k,
    pow-suc 2 k,
    op_append k q m (r / 2) (s / 2),
  )

pub and_append :
    (k q m r s : ℕ)
    → r < 2 ^ k
    → s < 2 ^ k
    → bit_and (q * 2 ^ k + r) (m * 2 ^ k + s) ≡ bit_and q m * 2 ^ k + bit_and r s
and_append = op_append bit_and min and_step refl

pub or_append :
    (k q m r s : ℕ)
    → r < 2 ^ k
    → s < 2 ^ k
    → bit_or (q * 2 ^ k + r) (m * 2 ^ k + s) ≡ bit_or q m * 2 ^ k + bit_or r s
or_append = op_append bit_or max or_step refl

pub xor_append :
    (k q m r s : ℕ)
    → r < 2 ^ k
    → s < 2 ^ k
    → bit_xor (q * 2 ^ k + r) (m * 2 ^ k + s) ≡ bit_xor q m * 2 ^ k + bit_xor r s
xor_append = op_append bit_xor differ xor_step refl

-- With nothing set on one side. The bound `n` stands for strong induction.
and_zero_below : (n a : ℕ) → a ≤ n → bit_and a 0 ≡ 0
and_zero_below n zero h = refl
and_zero_below zero (suc a) h = absurd (omega arith)
and_zero_below (suc n) (suc a) h =
    omega (arith, and_step (suc a) 0, and_zero_below n (suc a / 2) (omega arith))

pub and_zero : (a : ℕ) → bit_and a 0 ≡ 0
and_zero a = and_zero_below a a (omega arith)

pub zero_and : (a : ℕ) → bit_and 0 a ≡ 0
zero_and a = simp bit_and-bitwise

or_zero_below : (n a : ℕ) → a ≤ n → bit_or a 0 ≡ a
or_zero_below n zero h = refl
or_zero_below zero (suc a) h = absurd (omega arith)
or_zero_below (suc n) (suc a) h =
    omega (arith, or_step (suc a) 0, or_zero_below n (suc a / 2) (omega arith))

pub or_zero : (a : ℕ) → bit_or a 0 ≡ a
or_zero a = or_zero_below a a (omega arith)

pub zero_or : (a : ℕ) → bit_or 0 a ≡ a
zero_or a = simp bit_or-bitwise

differ_zero : (x : ℕ) → differ x 0 ≡ x
differ_zero zero = refl
differ_zero (suc x) = refl

xor_zero_below : (n a : ℕ) → a ≤ n → bit_xor a 0 ≡ a
xor_zero_below n zero h = refl
xor_zero_below zero (suc a) h = absurd (omega arith)
xor_zero_below (suc n) (suc a) h =
    omega (
      arith,
      xor_step (suc a) 0,
      differ_zero (suc a % 2),
      xor_zero_below n (suc a / 2) (omega arith),
    )

pub xor_zero : (a : ℕ) → bit_xor a 0 ≡ a
xor_zero a = xor_zero_below a a (omega arith)

pub zero_xor : (a : ℕ) → bit_xor 0 a ≡ a
zero_xor a = simp bit_xor-bitwise

and_ones : (k r : ℕ) → r < 2 ^ k → bit_and r (2 ^ k - 1) ≡ r
and_ones zero r h = omega (arith, and_zero r)
and_ones (suc k) r h =
    ground (arith, and_step r (2 ^ suc k - 1), pow-suc 2 k, one-le-pow k 2, and_ones k (r / 2))

ones_lt : (k : ℕ) → 2 ^ k - 1 < 2 ^ k
ones_lt k = omega (arith, one-le-pow k 2)

-- A number is its places above `k` and those below.
pub split_at : (k a : ℕ) → (a / 2 ^ k * 2 ^ k + a % 2 ^ k ≡ a) × (a % 2 ^ k < 2 ^ k)
split_at k a = grind (arith, one-le-pow k 2)

-- A mask of `k` ones keeps the `k` low places.
pub and_low : (k a : ℕ) → bit_and a (2 ^ k - 1) ≡ a % 2 ^ k
and_low k a = ground (
  arith,
  split_at k a,
  and_append k (a / 2 ^ k) 0 (a % 2 ^ k) (2 ^ k - 1),
  and_zero (a / 2 ^ k),
  and_ones k (a % 2 ^ k),
  ones_lt k,
)

-- A mask of `d` ones above `k` zeros clears the `k` low places.
pub and_high :
    (d k q r : ℕ)
    → q < 2 ^ d
    → r < 2 ^ k
    → bit_and (q * 2 ^ k + r) ((2 ^ d - 1) * 2 ^ k) ≡ q * 2 ^ k
and_high d k q r hq hr =
    ground (arith, and_append k q (2 ^ d - 1) r 0, and_ones d q, and_zero r, one-le-pow k 2)

-- A field of `d` places at place `k`.
pub and_field : (d k a : ℕ) → bit_and a ((2 ^ d - 1) * 2 ^ k) ≡ a / 2 ^ k % 2 ^ d * 2 ^ k
and_field d k a = ground (
  arith,
  split_at k a,
  and_append k (a / 2 ^ k) (2 ^ d - 1) (a % 2 ^ k) 0,
  and_low d (a / 2 ^ k),
  and_zero (a % 2 ^ k),
  one-le-pow k 2,
)

-- `|` of a field above `k` and a number below is their sum.
pub or_fields : (k q r : ℕ) → r < 2 ^ k → bit_or (q * 2 ^ k) r ≡ q * 2 ^ k + r
or_fields k q r hr = ground (arith, or_append k q 0 0 r, or_zero q, zero_or r, one-le-pow k 2)

pub two_pow_add : (d k : ℕ) → 2 ^ (d + k) ≡ 2 ^ d * 2 ^ k
two_pow_add zero k = omega (arith, ap (λ (t : ℕ). 2 ^ t) (zero_add k))
  where
    zero_add : (n : ℕ) → 0 + n ≡ n
    zero_add n = omega arith
two_pow_add (suc d) k =
    let e : suc d + k ≡ suc (d + k) = omega arith in
    ap (λ (t : ℕ). 2 ^ t) e
    ∙ ground (
      arith,
      pow-suc 2 (d + k),
      two_pow_add d k,
      pow-suc 2 d,
      ap (λ (t : ℕ). t * 2 ^ k) (pow-suc 2 d),
    )

min_comm : (a b : ℕ) → min a b ≡ min b a
min_comm a b = omega arith

and_comm_below : (n a b : ℕ) → a ≤ n → bit_and a b ≡ bit_and b a
and_comm_below n zero b h = simp (zero_and, and_zero)
and_comm_below zero (suc a) b h = absurd (omega arith)
and_comm_below (suc n) (suc a) b h = omega (
  arith,
  and_step (suc a) b,
  and_step b (suc a),
  min_comm (suc a % 2) (b % 2),
  and_comm_below n (suc a / 2) (b / 2) (omega arith),
)

pub and_comm : (a b : ℕ) → bit_and a b ≡ bit_and b a
and_comm a b = and_comm_below a a b (omega arith)

differ_self : (x : ℕ) → differ x x ≡ 0
differ_self zero = refl
differ_self (suc x) = differ_self x

xor_self_below : (n a : ℕ) → a ≤ n → bit_xor a a ≡ 0
xor_self_below n zero h = refl
xor_self_below zero (suc a) h = absurd (omega arith)
xor_self_below (suc n) (suc a) h = omega (
  arith,
  xor_step (suc a) (suc a),
  differ_self (suc a % 2),
  xor_self_below n (suc a / 2) (omega arith),
)

pub xor_self : (a : ℕ) → bit_xor a a ≡ 0
xor_self a = xor_self_below a a (omega arith)

pub or_ones : (k r : ℕ) → r < 2 ^ k → bit_or r (2 ^ k - 1) ≡ 2 ^ k - 1
or_ones zero r h = omega (arith, or_zero r)
or_ones (suc k) r h =
    ground (arith, or_step r (2 ^ suc k - 1), pow-suc 2 k, one-le-pow k 2, or_ones k (r / 2))

differ_one : (x : ℕ) → x < 2 → differ x 1 ≡ 1 - x
differ_one zero h = refl
differ_one (suc zero) h = refl
differ_one (suc (suc x)) h = absurd (omega arith)

-- Flipping `k` places.
pub xor_ones : (k r : ℕ) → r < 2 ^ k → bit_xor r (2 ^ k - 1) ≡ 2 ^ k - 1 - r
xor_ones zero r h = omega (arith, xor_zero r)
xor_ones (suc k) r h = ground (
  arith,
  xor_step r (2 ^ suc k - 1),
  differ_one (r % 2),
  pow-suc 2 k,
  one-le-pow k 2,
  xor_ones k (r / 2),
)

and_le_below : (n a b : ℕ) → a ≤ n → bit_and a b ≤ a
and_le_below n zero b h = omega (arith, zero_and b)
and_le_below zero (suc a) b h = absurd (omega arith)
and_le_below (suc n) (suc a) b h =
    omega (arith, and_step (suc a) b, and_le_below n (suc a / 2) (b / 2) (omega arith))

pub and_le : (a b : ℕ) → bit_and a b ≤ a
and_le a b = and_le_below a a b (omega arith)

pub and_le_right : (a b : ℕ) → bit_and a b ≤ b
and_le_right a b = omega (arith, and_comm a b, and_le b a)

or_le_below : (n a b : ℕ) → a ≤ n → bit_or a b ≤ a + b
or_le_below n zero b h = omega (arith, zero_or b)
or_le_below zero (suc a) b h = absurd (omega arith)
or_le_below (suc n) (suc a) b h =
    omega (arith, or_step (suc a) b, or_le_below n (suc a / 2) (b / 2) (omega arith))

pub or_le : (a b : ℕ) → bit_or a b ≤ a + b
or_le a b = or_le_below a a b (omega arith)
