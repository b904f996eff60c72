-- ===== src/Util/Misc/Odd.antt =====
-- src/util/misc.cpp: what `align_of` returns for an address of the upper half.
use native.Mathlib.Nat.{one-le-pow, pow-suc, pow-le-pow_right}
use cpp_os.Base.{
  ℕ, zero, suc, ◌+◌, ◌*◌, ◌/◌, ◌%◌, ◌^◌, ◌≡◌, ◌<◌, ◌≤◌, inl, inr, arith, ap, ◌==◌, Bool-cases,
  ==→eq, ==→ne, ltb, ltb→lt, ltb→ge,
}
use cpp_os.Util.Misc.{align_of}
use cpp_os.Util.Misc.Align.{align_of_lem}

-- An odd number times a power of two.
pub odd_part : (fuel n : ℕ) → n ≤ fuel → 0 < n → (k : ℕ) × (m : ℕ) × (n ≡ (2 * m + 1) * 2 ^ k)
odd_part zero n h p = absurd (omega arith)
odd_part (suc fuel) n h p = elim (Bool-cases (n % 2 == 0)) [
  | inr odd ↦ (0, n / 2, omega (arith, ==→ne _ _ odd))
  | inl even ↦
      let (k, m, e) = odd_part fuel (n / 2) (omega arith) (omega (arith, ==→eq _ _ even)) in
      (suc k, m, ground (arith, ==→eq _ _ even, e, ap (λ (t : ℕ). (2 * m + 1) * t) (pow-suc 2 k)))
]

-- The power is below the highest one, since the address is neither that nor twice as much.
pub order_below : (n k m : ℕ) → 2 ^ 63 < n → n < 2 ^ 64 → n ≡ (2 * m + 1) * 2 ^ k → k < 63
order_below n k zero h w e = elim (Bool-cases (ltb k 63)) [
  | inl lt ↦ ltb→lt _ _ lt
  | inr high ↦ elim (Bool-cases (k == 63)) [
    | inl same ↦ absurd (omega (arith, e, ap (λ (t : ℕ). 2 ^ t) (==→eq _ _ same)))
    | inr other ↦
        let above : 64 ≤ k = omega (arith, ltb→ge _ _ high, ==→ne _ _ other) in
        absurd (omega (arith, e, pow-le-pow_right {n = 2} (omega arith) above))
  ]
]
order_below n k (suc m) h w e = elim (Bool-cases (ltb k 63)) [
  | inl lt ↦ ltb→lt _ _ lt
  | inr high ↦
      let big : 2 ^ 63 ≤ 2 ^ k = pow-le-pow_right {n = 2} (omega arith) (ltb→ge _ _ high) in
      absurd (ground (arith, e, big))
]

-- In the upper half of the addresses `align_of` is not 0.
pub align_of-positive : (n : ℕ) → 2 ^ 63 < n → n < 2 ^ 64 → 0 < align_of n
align_of-positive n h w =
    let (k, m, e) = odd_part n n (omega arith) (omega arith) in
    let below = order_below n k m h w e in
    let a = align_of_lem k m below (omega (arith, e)) in
    omega (arith, ap align_of e, a, one-le-pow k 2 (omega arith))
