-- ===== src/Mem/Buddy/Blocks/Whole.antt =====
-- The memory of an allocator of src/mem/pmem.cpp as its free blocks and those that are handed out.
use native.Mathlib.Nat.{one-le-pow, div-eq_of_lt-le}
use cpp_os.Base.{
  ℕ, zero, suc, ◌+◌, ◌-◌, ◌*◌, ◌^◌, ◌<◌, ◌≤◌, ◌≡◌, refl, ap, ◌∙◌, ◌⊎◌, inl, inr, true, ◌&&◌, List,
  [], ◌∷◌, ltb, leb, ◌==◌, if◌then◌else◌, arith, IsIn, Bool-cases, ==→eq, ==→ne, ltb→lt, ltb→ge,
}
use cpp_os.Mem.Buddy.{Pallocator, get_meta}
use cpp_os.Mem.Buddy.Blocks.{IsSound, holds, count, total, covers, block_size, count-le-total}
use cpp_os.Mem.Buddy.Blocks.Aligned.{mul_step}

-- The address and order of a block are in the list.
abbrev pub IsLive : ℕ → ℕ → List (ℕ × ℕ) → Type 0
IsLive a o [] = ⊥
IsLive a o ((b, c) ∷ live) = ((a ≡ b) × (o ≡ c)) ⊎ IsLive a o live

-- The blocks of a list that hold the address.
abbrev pub live_count : ℕ → List (ℕ × ℕ) → ℕ → ℕ
live_count k [] x = 0
live_count k ((a, o) ∷ live) x = holds (2 ^ (o + k)) a x + live_count k live x

abbrev pub IsInside : Pallocator → ℕ → Type 0
IsInside p x = (p.start_addr ≤ x) × (x < p.end_addr)

-- What `init` fixes: the start is a multiple of the first order's size and not null, an order's size is an `int`,
-- no sum of an address and a size wraps, and no block above the highest order fits.
pub record IsLaid (p : Pallocator) : Type 0 where
  pub granule : p.first_order_size ≡ 2 ^ p.fo_bits
  pub start : (s : ℕ) × (p.start_addr ≡ s * 2 ^ p.fo_bits)
  pub nonnull : 0 < p.start_addr
  pub small : p.max_order + p.fo_bits < 31
  pub words : p.end_addr + 2 ^ (p.max_order + p.fo_bits) < 2 ^ 64
  pub top :
      (r : ℕ)
      → p.start_addr ≤ r * 2 ^ suc (p.max_order + p.fo_bits)
      → p.end_addr < r * 2 ^ suc (p.max_order + p.fo_bits) + 2 ^ suc (p.max_order + p.fo_bits)

-- Each address between the bounds lies in exactly one block, which is free or handed out, and no
-- other address in any. The metadata mark the blocks that are handed out, with their order, and no
-- other block.
pub record IsWhole (p : Pallocator) (live : List (ℕ × ℕ)) : Type 0 where
  pub sound : IsSound p
  pub laid : IsLaid p
  pub parts :
      (x : ℕ)
      → covers p x + live_count p.fo_bits live x
        ≡ (if leb p.start_addr x && ltb x p.end_addr then 1 else 0)
  pub handed :
      (a o : ℕ)
      → IsLive a o live
      → (o ≤ p.max_order)
        × ((q : ℕ) × (a ≡ q * block_size p o))
        × (p.alloced (get_meta p a) ≡ true)
        × (p.order (get_meta p a) ≡ o)
  pub marked :
      (x : ℕ)
      → IsInside p x
      → p.alloced (get_meta p x) ≡ true
      → (a : ℕ) × (o : ℕ) × IsLive a o live × (get_meta p a ≡ get_meta p x)

-- A block that holds an address.
pub found-IsIn :
    (size : ℕ) (zs : List ℕ) (x : ℕ)
    → 1 ≤ count size zs x
    → (z : ℕ) × IsIn z zs × (z ≤ x) × (x < z + size)
found-IsIn size [] x h = absurd (omega arith)
found-IsIn size (z ∷ zs) x h = elim (Bool-cases (leb z x && ltb x (z + size))) [
  | inl here ↦ (z, inl refl, ground (arith, here), ground (arith, here))
  | inr there ↦
      let (w, i, lo, hi) = found-IsIn size zs x (ground (arith, there)) in (w, inr i, lo, hi)
]

pub found_free :
    (k : ℕ) (lists : ℕ → List ℕ) (n x : ℕ)
    → 1 ≤ total k lists n x
    → (o : ℕ) × (z : ℕ) × (o < n) × IsIn z (lists o) × (z ≤ x) × (x < z + 2 ^ (o + k))
found_free k lists zero x h = absurd (omega arith)
found_free k lists (suc n) x h = elim (Bool-cases (ltb 0 (count (2 ^ (n + k)) (lists n) x))) [
  | inl here ↦
      let (z, i, lo, hi) = found-IsIn (2 ^ (n + k)) (lists n) x (ltb→lt _ _ here) in
      (n, z, omega arith, i, lo, hi)
  | inr there ↦
      let (o, z, lt, i, lo, hi) = found_free k lists n x (omega (arith, ltb→ge _ _ there)) in
      (o, z, omega arith, i, lo, hi)
]

pub found-IsLive :
    (k : ℕ) (live : List (ℕ × ℕ)) (x : ℕ)
    → 1 ≤ live_count k live x
    → (o : ℕ) × (a : ℕ) × IsLive a o live × (a ≤ x) × (x < a + 2 ^ (o + k))
found-IsLive k [] x h = absurd (omega arith)
found-IsLive k ((a, o) ∷ live) x h = elim (Bool-cases (leb a x && ltb x (a + 2 ^ (o + k)))) [
  | inl here ↦ (o, a, inl (refl, refl), ground (arith, here), ground (arith, here))
  | inr there ↦
      let (c, b, i, lo, hi) = found-IsLive k live x (ground (arith, there)) in (c, b, inr i, lo, hi)
]

-- And the other way round.
pub free_counts :
    (p : Pallocator) (o z x : ℕ)
    → o ≤ p.max_order
    → IsIn z (p.lists o)
    → z ≤ x
    → x < z + block_size p o
    → 1 ≤ count (block_size p o) (p.lists o) x
free_counts p o z x le i lo hi = list_counts (block_size p o) (p.lists o) z x i lo hi
  where
    list_counts :
        (size : ℕ) (zs : List ℕ) (z x : ℕ) → IsIn z zs → z ≤ x → x < z + size → 1 ≤ count size zs x
    list_counts size [] z x i lo hi = absurd i
    list_counts size (w ∷ ws) z x i lo hi = elim i [
      | inl e ↦ ground (arith, e)
      | inr j ↦ omega (arith, list_counts size ws z x j lo hi)
    ]

pub live_counts :
    (k : ℕ) (live : List (ℕ × ℕ)) (a o x : ℕ)
    → IsLive a o live
    → a ≤ x
    → x < a + 2 ^ (o + k)
    → 1 ≤ live_count k live x
live_counts k [] a o x i lo hi = absurd i
live_counts k ((b, c) ∷ live) a o x i lo hi = elim i [
  | inl e ↦ ground (arith, e.0, ap (λ (n : ℕ). 2 ^ (n + k)) e.1)
  | inr j ↦ omega (arith, live_counts k live a o x j lo hi)
]

-- Two lists count one address.
pub count_twice :
    (k : ℕ) (lists : ℕ → List ℕ) (o c n x : ℕ)
    → o < c
    → c < n
    → count (2 ^ (o + k)) (lists o) x + count (2 ^ (c + k)) (lists c) x ≤ total k lists n x
count_twice k lists o c zero x h l = absurd (omega arith)
count_twice k lists o c (suc n) x h l = elim (Bool-cases (n == c)) [
  | inl same ↦ rw (==→eq n c same) (omega (arith, count-le-total k lists o c x h))
  | inr other ↦ omega (arith, count_twice k lists o c n x h (ground (arith, ==→ne _ _ other)))
]

-- The metadata of a block are those of its first granule.
pub get_meta_eq :
    (p : Pallocator) (q s x : ℕ)
    → p.first_order_size ≡ 2 ^ p.fo_bits
    → p.start_addr ≡ s * 2 ^ p.fo_bits
    → p.start_addr ≤ q * 2 ^ p.fo_bits
    → q * 2 ^ p.fo_bits ≤ x
    → x < q * 2 ^ p.fo_bits + 2 ^ p.fo_bits
    → (get_meta p x ≡ q - s) × (s ≤ q)
unfolding get_meta
get_meta_eq p q s x g e lo a b = elim (Bool-cases (ltb q s)) [
  | inl less ↦
      absurd
        (omega (arith, e, mul_step q s (2 ^ p.fo_bits) (ltb→lt _ _ less), one-le-pow p.fo_bits 2))
  | inr ge ↦
      let size = 2 ^ p.fo_bits in
      let split : q * size ≡ s * size + (q - s) * size =
        ap (λ (n : ℕ). n * size) (omega (arith, ltb→ge _ _ ge)) ∙ right_distrib s (q - s) size in
      let lower : (q - s) * size ≤ x - s * size = omega (arith, split) in
      let upper : x - s * size < (q - s + 1) * size =
        omega (arith, split, right_distrib (q - s) 1 size) in
      (rw (g, e) (div-eq_of_lt-le size lower upper), ltb→ge _ _ ge)
]
  where
    right_distrib : (m n t : ℕ) → (m + n) * t ≡ m * t + n * t
    right_distrib m n t = ground arith
