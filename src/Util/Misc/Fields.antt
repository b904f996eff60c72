-- ===== src/Util/Misc/Fields.antt =====
-- `get_bits` and `get_bits_raw` read a field of a word.
use native.Mathlib.Nat.{
  pow-suc, one-le-pow, mod-eq_of_lt, mul-add-div_right, div-lt_iff_lt-mul, mul-add-mod_self_right,
}
use native.Mathlib.Numerals.{add-one}
use cpp_os.Base.{
  ℕ, suc, ◌+◌, ◌-◌, ◌*◌, ◌/◌, ◌%◌, ◌^◌, ◌≤◌, ◌<◌, bit_and, ◌≡◌, ◌∙◌, sym, ap, arith, inl, inr,
  ==→eq, ==→ne, ◌==◌, Bool-cases,
}
use cpp_os.Base.Bits.{and_low, and_comm, split_at, two_pow_add, or_append, or_ones, zero_or}
use cpp_os.Util.Misc.{bits_mask, get_bits, canonical_addr}
use cpp_os.Util.Misc.Align.{two_pow_lt}

mask_eq : (h : ℕ) → h ≤ 63 → bits_mask h ≡ 2 ^ suc h - 1
unfolding bits_mask
mask_eq h le = elim (Bool-cases (h == 63)) [
  | inl e ↦ ground (arith, ap (λ (t : ℕ). 2 ^ suc t) (==→eq h 63 e))
  | inr ne ↦ ground (
    arith,
    ap (λ (t : ℕ). 2 ^ t) (add-one h),
    two_pow_lt h (omega (arith, ==→ne h 63 ne)),
    pow-suc 2 h,
    one-le-pow h 2,
  )
]

-- The low `d + l` places without the lowest `l`.
pub mod-div : (l d n : ℕ) → n % 2 ^ (d + l) / 2 ^ l ≡ n / 2 ^ l % 2 ^ d
mod-div l d n = sym (mod-eq_of_lt fits) ∙ sym (low ∙ mul-add-mod_self_right q (2 ^ d) (r / 2 ^ l))
  where
    q : ℕ
    q = n / 2 ^ (d + l)

    r : ℕ
    r = n % 2 ^ (d + l)

    pos : 0 < 2 ^ l
    pos = one-le-pow l 2 (omega arith)

    whole : n ≡ q * 2 ^ d * 2 ^ l + r
    whole =
        ground (arith, split_at (d + l) n, two_pow_add d l, ap (λ (t : ℕ). q * t) (two_pow_add d l))

    low : n / 2 ^ l % 2 ^ d ≡ (q * 2 ^ d + r / 2 ^ l) % 2 ^ d
    low =
        ap (λ (t : ℕ). t / 2 ^ l % 2 ^ d) whole
        ∙ ap (λ (t : ℕ). t % 2 ^ d) (mul-add-div_right pos (q * 2 ^ d) r)

    fits : r / 2 ^ l < 2 ^ d
    fits = (div-lt_iff_lt-mul pos).1 (omega (arith, split_at (d + l) n, two_pow_add d l))

-- For `l ≤ h ≤ 63`, `get_bits` returns the bits `l` to `h`, both included, moved down to place 0.
pub get_bits_lem : (n l h : ℕ) → l ≤ h → h ≤ 63 → get_bits n l h ≡ n / 2 ^ l % 2 ^ (suc h - l)
unfolding get_bits
get_bits_lem n l h le top =
    ap (λ (t : ℕ). bit_and t n / 2 ^ l) (mask_eq h top)
    ∙ ap (λ (t : ℕ). t / 2 ^ l) (and_comm (2 ^ suc h - 1) n ∙ and_low (suc h) n)
    ∙ ap (λ (t : ℕ). n % 2 ^ t / 2 ^ l) (omega arith)
    ∙ mod-div l (suc h - l) n

-- Every address in the upper half of the 39 supported bits is sent to one address: `~MAX_SUPPORTED_MEM` has every
-- bit but bit 39, so the bits of the address are lost.
pub canonical_addr_upper :
    (addr : ℕ) → 2 ^ 38 ≤ addr → addr < 2 ^ 39 → canonical_addr addr ≡ 2 ^ 64 - 1 - 2 ^ 39
unfolding canonical_addr
canonical_addr_upper addr lo hi =
    ground
      (arith, or_append 39 0 (2 ^ 25 - 2) addr (2 ^ 39 - 1), or_ones 39 addr, zero_or (2 ^ 25 - 2))
