-- ===== src/Mem/Buddy/Blocks/Taken.antt =====
-- A free block that is taken off the end of its list in src/mem/pmem.cpp.
use cpp_os.Base.{
  ℕ, suc, ◌+◌, ◌<◌, ◌≤◌, ◌≡◌, inl, inr, false, List, ◌==◌, arith, IsIn, Bool-cases, ==→eq, subst,
  sym,
}
use native.Mathlib.Nat.{one-le-pow}
use cpp_os.Mem.Buddy.{Pallocator, at, last_zone, without_last, is_empty}
use cpp_os.Mem.Buddy.Blocks.{
  IsSound, holds, total, block_size, count-without_last, count_positive, total-at, count-le-total,
  IsIn-without_last,
}

abbrev pub taken : Pallocator → ℕ → ℕ → List ℕ
taken p o = at p.lists o (without_last (p.lists o))

pub total-taken :
    (p : Pallocator) (o n x : ℕ)
    → o < n
    → is_empty (p.lists o) ≡ false
    → total p.fo_bits (taken p o) n x + holds (block_size p o) (last_zone (p.lists o)) x
      ≡ total p.fo_bits p.lists n x
total-taken p o n x h some_zone = omega (
  arith,
  total-at p.fo_bits p.lists o (without_last (p.lists o)) n x h,
  count-without_last (block_size p o) (p.lists o) x some_zone,
)

-- What is left in the lists was there before.
pub IsIn-taken : (p : Pallocator) (o b w : ℕ) → IsIn w (taken p o b) → IsIn w (p.lists b)
IsIn-taken p o b w i = elim (Bool-cases (b == o)) [
  | inl same ↦
      subst (λ c. IsIn w (p.lists c)) (sym (==→eq b o same))
        (IsIn-without_last w (p.lists o) (rw same at i))
  | inr other ↦ rw other at i
]

-- No block that is left starts inside the one that was taken.
pub taken_apart :
    (p : Pallocator) (o b w : ℕ)
    → IsSound p
    → o ≤ p.max_order
    → is_empty (p.lists o) ≡ false
    → b ≤ p.max_order
    → IsIn w (taken p o b)
    → holds (block_size p o) (last_zone (p.lists o)) w ≡ 0
taken_apart p o b w s h some_zone hb i = omega (
  arith,
  s.apart w,
  total-taken p o (suc p.max_order) w (omega arith) some_zone,
  count-le-total p.fo_bits (taken p o) b (suc p.max_order) w (omega arith),
  count_positive (block_size p b) (taken p o b) w (one-le-pow (b + p.fo_bits) 2 (omega arith)) i,
)
