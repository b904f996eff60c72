-- ===== src/Util/Math/Laws.antt =====
-- What the functions of src/util/math.cpp compute.
use native.Mathlib.Nat.{one-le-pow, pow-suc, pow-zero, mul-add-mod_self_right, pow-le-pow_right}
use cpp_os.Base.{
  ℕ, zero, suc, ◌+◌, ◌-◌, ◌*◌, ◌/◌, ◌%◌, ◌^◌, ◌≤◌, ◌<◌, ◌≡◌, ◌∙◌, sym, ap, arith, ltb, Bool-cases,
  inl, inr, ltb→lt, ltb→ge,
}
use native.Mathlib.Decide.{dec_lt}
use cpp_os.Base.Bits.{xor_ones}
use cpp_os.Util.Misc.{align_up}
use cpp_os.Util.Misc.Align.{align_up_lem}
use cpp_os.Util.Math.{pow_loop, powu, bsr, log2, shl_int, log2_up, abs}

-- On a negative `int` of magnitude `m`, from 1 to `2 ^ 31`, `abs` returns `m - 2` modulo `2 ^ 32`: the last line adds
-- the sign mask where it has to subtract it.
pub abs_negative : (m : ℕ) → 0 < m → m ≤ 2 ^ 31 → abs (2 ^ 32 - m) ≡ (m + 2 ^ 32 - 2) % 2 ^ 32
unfolding abs
abs_negative m lo hi = ground (arith, xor_ones 32 (2 ^ 32 - m))

pow_loop_lem : (a b out : ℕ) → pow_loop a b out % 2 ^ 64 ≡ out * a ^ b % 2 ^ 64
unfolding pow_loop
pow_loop_lem a zero out = ap (λ (t : ℕ). t % 2 ^ 64) (ground (arith, pow-zero a))
pow_loop_lem a (suc b) out =
    pow_loop_lem a b (out * a % 2 ^ 64)
    ∙ mul-mod_left (out * a) (a ^ b)
    ∙ ap (λ (t : ℕ). t % 2 ^ 64) (grind (arith, pow-suc a b))
  where
    parts : (x y : ℕ) → x * y ≡ x / 2 ^ 64 * y * 2 ^ 64 + x % 2 ^ 64 * y
    parts x y =
        let whole : x ≡ x / 2 ^ 64 * 2 ^ 64 + x % 2 ^ 64 = omega arith in
        omega (arith, ap (λ (t : ℕ). t * y) whole)

    mul-mod_left : (x y : ℕ) → x % 2 ^ 64 * y % 2 ^ 64 ≡ x * y % 2 ^ 64
    mul-mod_left x y = sym (
        ap (λ (t : ℕ). t % 2 ^ 64) (parts x y)
        ∙ mul-add-mod_self_right (x / 2 ^ 64 * y) (2 ^ 64) (x % 2 ^ 64 * y))

pow_loop-lt : (a b out : ℕ) → out < 2 ^ 64 → pow_loop a b out < 2 ^ 64
unfolding pow_loop
pow_loop-lt a zero out h = h
pow_loop-lt a (suc b) out h = pow_loop-lt a b (out * a % 2 ^ 64) (omega arith)

-- `powu` is the power modulo `2 ^ 64`.
pub powu_lem : (a b : ℕ) → powu a b ≡ a ^ b % 2 ^ 64
unfolding powu
powu_lem a b = omega (arith, pow_loop_lem a b 1, pow_loop-lt a b 1 (omega arith))

bsr_bounds : (fuel n : ℕ) → 0 < n → n < 2 ^ fuel → (2 ^ bsr fuel n ≤ n) × (n < 2 ^ suc (bsr fuel n))
unfolding bsr
bsr_bounds zero n h fits = absurd (omega arith)
bsr_bounds (suc fuel) n h fits = elim (Bool-cases (ltb n 2)) [
  | inl small ↦ rw small (omega (arith, ltb→lt n 2 small))
  | inr big ↦ rw big (
      omega (
        arith,
        ltb→ge n 2 big,
        pow-suc 2 fuel,
        pow-suc 2 (bsr fuel (n / 2)),
        pow-suc 2 (suc (bsr fuel (n / 2))),
        bsr_bounds fuel (n / 2) (omega (arith, ltb→ge n 2 big)) (omega (arith, pow-suc 2 fuel)),
      ))
]

-- `log2` of a positive word is the index of its highest bit.
pub log2_bounds : (n : ℕ) → 0 < n → n < 2 ^ 64 → (2 ^ log2 n ≤ n) × (n < 2 ^ suc (log2 n))
unfolding log2
log2_bounds n h fits = ground (arith, bsr_bounds 64 n h fits)

-- Powers of two grow.
pow_grows : (i j : ℕ) → i < j → 2 ^ suc i ≤ 2 ^ j
pow_grows i j h = pow-le-pow_right (omega arith) h

exponent_unique : (i j n : ℕ) → 2 ^ i ≤ n → n < 2 ^ suc i → 2 ^ j ≤ n → n < 2 ^ suc j → i ≡ j
exponent_unique i j n a b c d = elim (dec_lt i j) [
  | yes p ↦ absurd (omega (arith, pow_grows i j p))
  | no p ↦ elim (dec_lt j i) [
    | yes q ↦ absurd (omega (arith, pow_grows j i q))
    | no q ↦ omega arith
  ]
]

pub log2_two_pow : (k : ℕ) → k < 64 → log2 (2 ^ k) ≡ k
log2_two_pow k h =
    let p : 0 < 2 ^ k = one-le-pow k 2 (omega arith) in
    let b = log2_bounds (2 ^ k) p (omega (arith, pow_grows k 64 h, pow-suc 2 k)) in
    exponent_unique (log2 (2 ^ k)) k (2 ^ k) b.0 b.1 (omega arith) (omega (arith, pow-suc 2 k))

log2_lt : (n k : ℕ) → 0 < n → n < 2 ^ k → k ≤ 64 → log2 n < k
log2_lt n k pos_n h top = elim (dec_lt (log2 n) k) [
  | yes p ↦ p
  | no p ↦ absurd (
      omega (
        arith,
        log2_bounds n pos_n (omega (arith, pow_mono k 64 top)),
        pow_mono k (log2 n) (omega arith),
      ))
]
  where
    pow_mono : (i j : ℕ) → i ≤ j → 2 ^ i ≤ 2 ^ j
    pow_mono i j le = pow-le-pow_right (omega arith) le

pub shl_int_lem : (s : ℕ) → s < 31 → shl_int s ≡ 2 ^ s
unfolding shl_int
shl_int_lem s h = ground (arith, ap (λ (t : ℕ). 2 ^ t) small, pow_grows s 31 h, pow-suc 2 s)
  where
    small : s % 32 ≡ s
    small = omega arith

-- A multiple of `2 ^ k` from `2 ^ k` to below three times that.
log2_multiple : (k q : ℕ) → k < 31 → 0 < q → q < 3 → 2 ^ log2 (q * 2 ^ k) ≡ q * 2 ^ k
log2_multiple k zero h lo hi = absurd (omega arith)
log2_multiple k (suc zero) h lo hi =
    let e : 1 * 2 ^ k ≡ 2 ^ k = omega arith in
    rw e (ap (λ (t : ℕ). 2 ^ t) (log2_two_pow k (omega arith)))
log2_multiple k (suc (suc zero)) h lo hi =
    let e : 2 * 2 ^ k ≡ 2 ^ suc k = omega (arith, pow-suc 2 k) in
    rw e (ap (λ (t : ℕ). 2 ^ t) (log2_two_pow (suc k) (omega arith)))
log2_multiple k (suc (suc (suc q))) h lo hi = absurd (omega arith)

multiple_bounds :
    (q p n : ℕ) → n ≤ q * p → q * p < n + p → p ≤ n → n < 2 * p → 0 < p → (0 < q) × (q < 3)
multiple_bounds zero p n a b c d e = absurd (omega arith)
multiple_bounds (suc zero) p n a b c d e = omega arith
multiple_bounds (suc (suc zero)) p n a b c d e = omega arith
multiple_bounds (suc (suc (suc q))) p n a b c d e = absurd (grind arith)

-- `log2_up` of a positive number below `2 ^ 31` is its logarithm to base 2, rounded up.
pub log2_up_lem : (n : ℕ) → 0 < n → n < 2 ^ 31 → (n ≤ 2 ^ log2_up n) × (2 ^ log2_up n < 2 * n)
unfolding log2_up
log2_up_lem n lo hi =
    let b = log2_bounds n lo (omega arith) in
    let small : log2 n < 31 = log2_lt n 31 lo hi (omega arith) in
    let (q, e, up, near) =
      align_up_lem (log2 n) n (omega arith) (omega (arith, pow_grows (log2 n) 31 small)) in
    let p : 0 < 2 ^ log2 n = one-le-pow (log2 n) 2 (omega arith) in
    let few =
      multiple_bounds q (2 ^ log2 n) n (omega (arith, e)) (omega (arith, e)) b.0
        (omega (arith, b, pow-suc 2 (log2 n))) p in
    let r : 2 ^ log2_up n ≡ align_up n (2 ^ log2 n) =
      rw (shl_int_lem (log2 n) small, e) (log2_multiple (log2 n) q small few.0 few.1) in
    rw r (up, omega (arith, near, b))
