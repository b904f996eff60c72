-- ===== src/Util/Misc/Align.antt =====
-- Rounding to a power of two.
use native.Mathlib.Nat.{one-le-pow, pow-suc, div-lt_iff_lt-mul, mod-eq_of_lt}
use cpp_os.Base.{
  ℕ, suc, ◌+◌, ◌-◌, ◌*◌, ◌/◌, ◌^◌, ◌≤◌, ◌<◌, bit_and, ◌≡◌, ◌∙◌, sym, ap, zero, arith, add64, sub64,
  not64,
}
use cpp_os.Base.Bits.{and_field, split_at, two_pow_add, xor_append, xor_self, xor_zero, zero_xor}
use cpp_os.Util.Misc.{align_up, align_down, align_of}

-- The powers of two below `2 ^ 64`, in pairs.
two_pow_pair : (k d : ℕ) → d + k ≡ 63 → (2 ^ d * 2 ^ k ≡ 2 ^ 63) × (1 ≤ 2 ^ k) × (1 ≤ 2 ^ d)
two_pow_pair k d e = (
  sym (two_pow_add d k) ∙ ap (λ (t : ℕ). 2 ^ t) e,
  one-le-pow k 2 (omega arith),
  one-le-pow d 2 (omega arith),
)

pub two_pow_le : (k : ℕ) → k ≤ 63 → 2 ^ k ≤ 2 ^ 63
two_pow_le k h = grind (arith, two_pow_pair k (63 - k))

pub two_pow_lt : (k : ℕ) → k < 63 → 2 ^ k < 2 ^ 63
two_pow_lt k h = omega (arith, two_pow_le (suc k) h, pow-suc 2 k, one-le-pow k 2 (omega arith))

sub_one_mul : (m p : ℕ) → 1 ≤ m → (m - 1) * p + p ≡ m * p
sub_one_mul zero p h = absurd (omega arith)
sub_one_mul (suc m) p h = grind arith

-- `~ (2 ^ k - 1)` is a row of ones above `k` zeros.
not_mask : (k d : ℕ) → d + k ≡ 63 → not64 (sub64 (2 ^ k) 1) ≡ (2 ^ suc d - 1) * 2 ^ k
not_mask k d e = ground (
  arith,
  two_pow_pair k d e,
  two_pow_le k,
  pow-suc 2 d,
  ap (λ (t : ℕ). t * 2 ^ k) (pow-suc 2 d),
  sub_one_mul (2 ^ suc d) (2 ^ k),
)

pub clear_low :
    (k a : ℕ) → k ≤ 63 → a < 2 ^ 64 → bit_and a (not64 (sub64 (2 ^ k) 1)) ≡ a / 2 ^ k * 2 ^ k
clear_low k a hk h = ground (
  arith,
  not_mask k (63 - k),
  and_field (suc (63 - k)) k a,
  pow-suc 2 (63 - k),
  ap (λ (t : ℕ). t * 2 ^ k) (pow-suc 2 (63 - k)),
  two_pow_pair k (63 - k),
  mod-eq_of_lt quotient_fits,
)
  where
    quotient_fits : a / 2 ^ k < 2 ^ suc (63 - k)
    quotient_fits = (div-lt_iff_lt-mul (one-le-pow k 2 (omega arith))).1 (
        ground (
          arith,
          pow-suc 2 (63 - k),
          ap (λ (t : ℕ). t * 2 ^ k) (pow-suc 2 (63 - k)),
          two_pow_pair k (63 - k),
        ))

-- `align_down` is the largest multiple of the alignment that is not above the address.
pub align_down_lem :
    (k addr : ℕ) → k ≤ 63 → addr < 2 ^ 64 → align_down addr (2 ^ k) ≡ addr / 2 ^ k * 2 ^ k
unfolding align_down
align_down_lem k addr hk h = clear_low k addr hk h

pub align_up_eq :
    (k addr : ℕ)
    → k ≤ 63
    → addr + 2 ^ k ≤ 2 ^ 64
    → align_up addr (2 ^ k) ≡ (addr + 2 ^ k - 1) / 2 ^ k * 2 ^ k
unfolding align_up
align_up_eq k addr hk h =
    ap (λ (t : ℕ). bit_and t (not64 (sub64 (2 ^ k) 1))) no_wrap
    ∙ clear_low k _ hk (omega (arith, p))
  where
    p : 1 ≤ 2 ^ k
    p = one-le-pow k 2 (omega arith)

    no_wrap : sub64 (add64 addr (2 ^ k)) 1 ≡ addr + 2 ^ k - 1
    no_wrap = omega (arith, p)

-- `align_up` to a power of two, where the sum in it does not wrap, is the least multiple of the
-- alignment that is not below the address.
pub align_up_lem :
    (k addr : ℕ)
    → k ≤ 63
    → addr + 2 ^ k ≤ 2 ^ 64
    → (q : ℕ) × (align_up addr (2 ^ k) ≡ q * 2 ^ k)
      × (addr ≤ align_up addr (2 ^ k))
      × (align_up addr (2 ^ k) < addr + 2 ^ k)
align_up_lem k addr hk h = (
  (addr + 2 ^ k - 1) / 2 ^ k,
  align_up_eq k addr hk h,
  ground (arith, align_up_eq k addr hk h, split_at k (addr + 2 ^ k - 1)),
  ground (arith, align_up_eq k addr hk h, split_at k (addr + 2 ^ k - 1)),
)

-- `align_of` is the largest power of two that divides the address: of an odd multiple of `2 ^ k`
-- that fits in 64 bits, with `k` below 63, it is `2 ^ k`. (At the top bit, `k = 63`, the sum in it wraps, and it is 0.)
pub align_of_lem :
    (k m : ℕ) → k < 63 → (2 * m + 1) * 2 ^ k < 2 ^ 64 → align_of ((2 * m + 1) * 2 ^ k) ≡ 2 ^ k
unfolding align_of
align_of_lem k m hk h = ground (
  arith,
  one-le-pow k 2,
  two_pow_pair k (63 - k),
  two_pow_lt k hk,
  pow-suc 2 k,
  ap (λ (t : ℕ). m * t) (pow-suc 2 k),
  xor_append (suc k) m m (2 ^ k) (2 ^ k - 1),
  xor_self m,
  xor_append k 1 0 0 (2 ^ k - 1),
  xor_zero 1,
  zero_xor (2 ^ k - 1),
)
