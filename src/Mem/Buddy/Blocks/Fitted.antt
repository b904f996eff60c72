-- ===== src/Mem/Buddy/Blocks/Fitted.antt =====
-- The size that `init` of src/mem/pmem.cpp gives a zone.
use native.Mathlib.Nat.{pow-le-pow_right}
use cpp_os.Base.{
  ℕ, zero, suc, ◌+◌, ◌-◌, ◌*◌, ◌/◌, ◌^◌, ◌<◌, ◌≤◌, ◌≡◌, refl, ap, sym, ◌∙◌, ◌⊎◌, inl, inr, false,
  ltb, sub64, arith, Bool-cases, ltb→lt, ltb→ge, subst,
}
use cpp_os.Base.Bits.{two_pow_add}
use cpp_os.Util.Misc.{align_of}
use cpp_os.Util.Misc.Align.{align_of_lem}
use cpp_os.Util.Misc.Odd.{odd_part, order_below}
use cpp_os.Mem.Buddy.{Pallocator}
use cpp_os.Mem.Buddy.Init.{fit, zone_size}
use cpp_os.Mem.Buddy.Blocks.Aligned.{mul_step, mul_step_of_lt, pow_double}

mul_cancel : (a b p : ℕ) → 0 < p → a * p ≡ b * p → a ≡ b
mul_cancel a b p h e = elim (Bool-cases (ltb a b)) [
  | inl less ↦ absurd (omega (arith, e, mul_step a b p (ltb→lt _ _ less)))
  | inr ge ↦ elim (Bool-cases (ltb b a)) [
    | inl more ↦ absurd (omega (arith, e, mul_step b a p (ltb→lt _ _ more)))
    | inr le ↦ omega (arith, ltb→ge _ _ ge, ltb→ge _ _ le)
  ]
]

-- The exponents of two powers.
power_le : (n i : ℕ) → 2 ^ n < 2 ^ suc i → n ≤ i
power_le n i h = elim (Bool-cases (ltb i n)) [
  | inl more ↦ absurd (
      omega
        (arith, h, pow-le-pow_right {n = 2} (omega arith) {i = suc i} {j = n} (ltb→lt _ _ more)))
  | inr done ↦ ltb→ge _ _ done
]

pub power_lt : (n i : ℕ) → 2 ^ n < 2 ^ i → n < i
power_lt n zero h = absurd (omega (arith, h, pow_double n))
power_lt n (suc i) h = omega (arith, power_le n i h)

-- No higher power of two divides an odd multiple of one.
odd_multiple : (m j t n : ℕ) → (2 * m + 1) * 2 ^ j ≡ t * 2 ^ n → n ≤ j
odd_multiple m j t n e = elim (Bool-cases (ltb j n)) [
  | inr done ↦ ltb→ge _ _ done
  | inl more ↦
      let d = n - suc j in
      let split : n ≡ d + suc j = omega (arith, ltb→lt _ _ more) in
      let power : 2 ^ n ≡ 2 ^ d * 2 ^ suc j = ap (λ (i : ℕ). 2 ^ i) split ∙ two_pow_add d (suc j) in
      let half : t * 2 ^ n ≡ 2 * (t * 2 ^ d) * 2 ^ j =
        ap (λ (i : ℕ). t * i) power
        ∙ ap (λ (i : ℕ). t * (2 ^ d * i)) (pow_double j).0
        ∙ doubled t (2 ^ d) (2 ^ j) in
      let same : 2 * m + 1 ≡ 2 * (t * 2 ^ d) =
        mul_cancel (2 * m + 1) (2 * (t * 2 ^ d)) (2 ^ j) (pow_double j).1 (e ∙ half) in
      absurd (omega (arith, same))
]
  where
    doubled : (a b c : ℕ) → a * (b * (c + c)) ≡ 2 * (a * b) * c
    doubled a b c = ground arith

-- The halving of a power of two ends with the largest one that fits.
fit_power :
    (fuel j left : ℕ)
    → 2 ^ j ≤ fuel
    → 0 < left
    → (i : ℕ) × (fit fuel (2 ^ j) left ≡ 2 ^ i)
      × (i ≤ j)
      × (2 ^ i ≤ left)
      × ((i ≡ j) ⊎ (left < 2 ^ suc i))
unfolding fit
fit_power zero j left h l = absurd (omega (arith, pow_double j))
fit_power (suc fuel) zero left h l =
    let fits : ltb left (2 ^ 0) ≡ false = ground arith in
    rw fits (0, refl, omega arith, omega arith, inl refl)
fit_power (suc fuel) (suc j) left h l = elim (Bool-cases (ltb left (2 ^ suc j))) [
  | inr done ↦ rw done (suc j, refl, omega arith, ltb→ge _ _ done, inl refl)
  | inl more ↦
      let half : 2 ^ suc j / 2 ≡ 2 ^ j = omega (arith, pow_double j) in
      let (i, e, le, fits, most) = fit_power fuel j left (omega (arith, pow_double j)) l in
      rw (more, half)
        (
          i,
          e,
          omega arith,
          fits,
          elim most [ inl same ↦ inr (rw same (ltb→lt _ _ more)) | inr lt ↦ inr lt ],
        )
]

-- The size at a granule is that of an order: the zone is aligned, it fits, and no larger one does.
pub zone_size_power :
    (p : Pallocator) (s u v : ℕ)
    → s ≡ u * 2 ^ p.fo_bits
    → p.end_addr ≡ v * 2 ^ p.fo_bits
    → 2 ^ 63 < s
    → s < p.end_addr
    → p.end_addr < 2 ^ 64
    → (c : ℕ) × (zone_size p s ≡ 2 ^ (c + p.fo_bits))
      × ((t : ℕ) × (s ≡ t * 2 ^ (c + p.fo_bits)))
      × (s + 2 ^ (c + p.fo_bits) ≤ p.end_addr)
      × ((r j : ℕ) → r * 2 ^ (j + p.fo_bits) ≡ s → s + 2 ^ (j + p.fo_bits) ≤ p.end_addr → j ≤ c)
unfolding zone_size
zone_size_power p s u v es ee lo hi w =
    let k = p.fo_bits in
    let (j, m, odd) = odd_part s s (omega arith) (omega arith) in
    let small = order_below s j m lo (omega arith) odd in
    let aligned : align_of s ≡ 2 ^ j =
      ap align_of odd ∙ align_of_lem j m small (omega (arith, sym odd)) in
    let left : sub64 p.end_addr s ≡ p.end_addr - s = omega arith in
    let (i, e, le, fits, most) = fit_power (2 ^ j) j (p.end_addr - s) (omega arith) (omega arith) in
    let maximal : (n r : ℕ) → r * 2 ^ n ≡ s → s + 2 ^ n ≤ p.end_addr → n ≤ i = λ n r er fit_n.
      elim most [
        | inl same ↦ subst (λ b. n ≤ b) (sym same) (odd_multiple m j r n (sym odd ∙ sym er))
        | inr lt ↦ power_le n i (omega (arith, fit_n, lt))
      ] in
    let granule : k ≤ i =
      maximal k u (sym es)
        (omega (arith, es, mul_step_of_lt u v (2 ^ k) (omega (arith, es, ee)))) in
    let placed : i ≡ i - k + k = omega (arith, granule) in
    let power : 2 ^ j ≡ 2 ^ (j - i) * 2 ^ (i - k + k) =
      ap (λ (n : ℕ). 2 ^ n) (omega (arith, le, granule)) ∙ two_pow_add (j - i) (i - k + k) in
    let size : 2 ^ i ≡ 2 ^ (i - k + k) = ap (λ (n : ℕ). 2 ^ n) placed in
    (
      i - k,
      ap (λ (n : ℕ). fit n n (sub64 p.end_addr s)) aligned
          ∙ ap (λ (n : ℕ). fit (2 ^ j) (2 ^ j) n) left
          ∙ e
          ∙ size,
      (
        (2 * m + 1) * 2 ^ (j - i),
        odd
            ∙ ap (λ (n : ℕ). (2 * m + 1) * n) power
            ∙ grouped (2 * m + 1) (2 ^ (j - i)) (2 ^ (i - k + k)),
      ),
      omega (arith, size, fits),
      λ r n er fit_n. omega (arith, granule, maximal (n + k) r er fit_n),
    )
  where
    grouped : (a b d : ℕ) → a * (b * d) ≡ a * b * d
    grouped a b d = ground arith
