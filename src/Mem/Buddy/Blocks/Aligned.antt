-- ===== src/Mem/Buddy/Blocks/Aligned.antt =====
-- Blocks of src/mem/pmem.cpp that are aligned to their size, and the buddy of one.
use native.Mathlib.Nat.{one-le-pow, pow-suc, pow-le-pow_right}
use cpp_os.Base.{
  ℕ, suc, ◌+◌, ◌-◌, ◌*◌, ◌/◌, ◌%◌, ◌^◌, bit_xor, ◌<◌, ◌≤◌, min, max, ◌≡◌, ap, sym, ◌∙◌, ◌⊎◌, inl,
  inr, ltb, ◌==◌, arith, Bool-cases, ==→eq, ==→ne, ltb→lt, ltb→ge, subst,
}
use cpp_os.Base.Bits.{xor_append, xor_zero, zero_xor, xor_self, two_pow_add}

-- The buddy of the first half of a block, and of the second.
pub xor_half : (q k : ℕ) → bit_xor (q * 2 ^ suc k) (2 ^ k) ≡ q * 2 ^ suc k + 2 ^ k
xor_half q k = ground (
  arith,
  xor_append (suc k) q 0 0 (2 ^ k),
  xor_zero q,
  zero_xor (2 ^ k),
  pow-suc 2 k,
  one-le-pow k 2 (omega arith),
)

xor_other_half : (q k : ℕ) → bit_xor (q * 2 ^ suc k + 2 ^ k) (2 ^ k) ≡ q * 2 ^ suc k
xor_other_half q k = ground (
  arith,
  xor_append (suc k) q 0 (2 ^ k) (2 ^ k),
  xor_zero q,
  xor_self (2 ^ k),
  pow-suc 2 k,
  one-le-pow k 2 (omega arith),
)

twice : (r k : ℕ) → r * 2 * 2 ^ k ≡ r * 2 ^ suc k
twice r k = ground (arith, ap (λ (t : ℕ). r * t) (pow-suc 2 k))

-- A block and its buddy are the halves of a block of twice the size.
pub buddy_cases :
    (a q k : ℕ)
    → a ≡ q * 2 ^ k
    → (r : ℕ) × (((a ≡ r * 2 ^ suc k) × (bit_xor a (2 ^ k) ≡ r * 2 ^ suc k + 2 ^ k))
        ⊎ ((a ≡ r * 2 ^ suc k + 2 ^ k) × (bit_xor a (2 ^ k) ≡ r * 2 ^ suc k)))
buddy_cases a q k e = elim (Bool-cases (q % 2 == 0)) [
  | inl even ↦
      let half : q ≡ q / 2 * 2 = omega (arith, ==→eq _ _ even) in
      let placed : a ≡ q / 2 * 2 ^ suc k = e ∙ ap (λ (n : ℕ). n * 2 ^ k) half ∙ twice (q / 2) k in
      (q / 2, inl (placed, ap (λ (n : ℕ). bit_xor n (2 ^ k)) placed ∙ xor_half (q / 2) k))
  | inr odd ↦
      let half : q ≡ q / 2 * 2 + 1 = omega (arith, ==→ne _ _ odd) in
      let placed : a ≡ q / 2 * 2 ^ suc k + 2 ^ k =
        e ∙ ap (λ (n : ℕ). n * 2 ^ k) half ∙ ground (arith, twice (q / 2) k) in
      (q / 2, inr (placed, ap (λ (n : ℕ). bit_xor n (2 ^ k)) placed ∙ xor_other_half (q / 2) k))
]

pub mul_step : (r u p : ℕ) → r < u → r * p + p ≤ u * p
mul_step r u p h =
    let e : u ≡ r + 1 + (u - r - 1) = omega arith in
    subst (λ n. r * p + p ≤ n * p) (sym e) (grind arith)

mul_le : (u r p : ℕ) → u ≤ r → u * p ≤ r * p
mul_le u r p h = elim (Bool-cases (ltb u r)) [
  | inl less ↦ omega (arith, mul_step u r p (ltb→lt _ _ less))
  | inr ge ↦
      let same : u ≡ r = omega (arith, ltb→ge _ _ ge) in
      subst (λ n. n * p ≤ r * p) (sym same) (omega arith)
]

mul-le_of_lt : (u r p : ℕ) → u * p < r * p + p → u * p ≤ r * p
mul-le_of_lt u r p h = elim (Bool-cases (ltb r u)) [
  | inl less ↦ absurd (omega (arith, mul_step r u p (ltb→lt _ _ less)))
  | inr le ↦ mul_le u r p (ltb→ge _ _ le)
]

pub mul_step_of_lt : (r u p : ℕ) → r * p < u * p → r * p + p ≤ u * p
mul_step_of_lt r u p h = elim (Bool-cases (ltb r u)) [
  | inl less ↦ mul_step r u p (ltb→lt _ _ less)
  | inr le ↦ absurd (omega (arith, mul_le u r p (ltb→ge _ _ le)))
]

-- A smaller block that holds the start of a block starts there too.
pub aligned_start :
    (j d q r : ℕ)
    → r * 2 ^ j ≤ q * 2 ^ (d + j)
    → q * 2 ^ (d + j) < r * 2 ^ j + 2 ^ j
    → r * 2 ^ j ≡ q * 2 ^ (d + j)
aligned_start j d q r h k =
    let e : q * 2 ^ (d + j) ≡ q * 2 ^ d * 2 ^ j = ground (arith, two_pow_add d j) in
    omega (arith, e, mul-le_of_lt (q * 2 ^ d) r (2 ^ j) (omega (arith, e)))

-- A block of at least twice the size that holds an address of a pair of buddies holds them both.
pub holds_pair :
    (j d q r x : ℕ)
    → q * 2 ^ (d + suc j) ≤ x
    → x < q * 2 ^ (d + suc j) + 2 ^ (d + suc j)
    → r * 2 ^ suc j ≤ x
    → x < r * 2 ^ suc j + 2 ^ suc j
    → (q * 2 ^ (d + suc j) ≤ r * 2 ^ suc j)
      × (r * 2 ^ suc j + 2 ^ suc j ≤ q * 2 ^ (d + suc j) + 2 ^ (d + suc j))
holds_pair j d q r x a b c e =
    let size = 2 ^ suc j in
    let start : q * 2 ^ (d + suc j) ≡ q * 2 ^ d * size = ground (arith, two_pow_add d (suc j)) in
    let stop : q * 2 ^ (d + suc j) + 2 ^ (d + suc j) ≡ (q * 2 ^ d + 2 ^ d) * size =
      ground (arith, two_pow_add d (suc j)) in
    (
      omega (arith, start, mul-le_of_lt (q * 2 ^ d) r size (omega (arith, start))),
      omega (arith, stop, mul_step_of_lt r (q * 2 ^ d + 2 ^ d) size (omega (arith, stop))),
    )

-- A block, its buddy and the block that they make up.
pub pair_lem :
    (a q k : ℕ)
    → a ≡ q * 2 ^ k
    → let b = bit_xor a (2 ^ k) in
      (r : ℕ) × (min a b ≡ r * 2 ^ suc k)
      × (max a b ≡ r * 2 ^ suc k + 2 ^ k)
      × ((t : ℕ) × (b ≡ t * 2 ^ k))
      × (((a ≡ r * 2 ^ suc k) × (b ≡ r * 2 ^ suc k + 2 ^ k))
          ⊎ ((a ≡ r * 2 ^ suc k + 2 ^ k) × (b ≡ r * 2 ^ suc k)))
pair_lem a q k e =
    let (r, cases) = buddy_cases a q k e in
    elim cases [
      | inl (x, y) ↦ (
        r,
        ground (arith, x, y),
        ground (arith, x, y),
        (r * 2 + 1, y ∙ ground (arith, twice r k)),
        inl (x, y),
      )
      | inr (x, y) ↦
          (r, ground (arith, x, y), ground (arith, x, y), (r * 2, y ∙ sym (twice r k)), inr (x, y))
    ]

pub pow_double : (k : ℕ) → (2 ^ suc k ≡ 2 ^ k + 2 ^ k) × (0 < 2 ^ k)
pow_double k = (omega (arith, pow-suc 2 k), one-le-pow k 2 (omega arith))

pub larger_power : (c o : ℕ) → c < o → 2 ^ c < 2 ^ o
larger_power c o h =
    omega (arith, pow_double c, pow-le-pow_right {n = 2} (omega arith) {i = suc c} {j = o} h)
