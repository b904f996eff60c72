-- ===== src/Mem/Buddy/Blocks.antt =====
-- The free blocks of src/mem/pmem.cpp, counted at each address: how many of them an address lies in.
pub mod Aligned
pub mod Taken
pub mod Split
pub mod Populated
pub mod Alloc
pub mod Whole
pub mod Merge
pub mod Joined
pub mod Free
pub mod Release
pub mod Returned
pub mod Handed
pub mod Runs
pub mod Apart
pub mod Fitted
pub mod Started
pub mod Cleared
pub mod Initial
use cpp_os.Base.{
  ℕ, zero, suc, ◌+◌, ◌^◌, ◌<◌, ◌≤◌, ◌≡◌, refl, ◌⊎◌, inl, inr, false, ◌&&◌, List, [], ◌∷◌, ◌++◌, ltb,
  leb, ◌==◌, if◌then◌else◌, arith, IsIn, Bool-cases, ==→eq, ==→ne, ◌*◌,
}
use cpp_os.Mem.Buddy.{Pallocator, at, last_zone, without_last, is_empty}

-- 1 where the block of `size` bytes at `z` holds the address, and 0 elsewhere.
abbrev pub holds : ℕ → ℕ → ℕ → ℕ
holds size z x = if leb z x && ltb x (z + size) then 1 else 0

-- The blocks of a list that hold the address.
abbrev pub count : ℕ → List ℕ → ℕ → ℕ
count size [] x = 0
count size (z ∷ zs) x = holds size z x + count size zs x

-- Those of the orders below `n`, where the first order has blocks of `2 ^ k` bytes.
abbrev pub total : ℕ → (ℕ → List ℕ) → ℕ → ℕ → ℕ
total k lists zero x = 0
total k lists (suc n) x = count (2 ^ (n + k)) (lists n) x + total k lists n x

-- The free blocks of an allocator that hold the address.
abbrev pub covers : Pallocator → ℕ → ℕ
covers p x = total p.fo_bits p.lists (suc p.max_order) x

abbrev pub block_size : Pallocator → ℕ → ℕ
block_size p order = 2 ^ (order + p.fo_bits)

-- Every free block is aligned to its size, which it has stored, and no address lies in two of them.
pub record IsSound (p : Pallocator) : Type 0 where
  pub sized :
      (o z : ℕ)
      → o ≤ p.max_order
      → IsIn z (p.lists o)
      → (0 < z) × ((q : ℕ) × (z ≡ q * block_size p o)) × (p.zone_n z ≡ block_size p o)
  pub apart : (x : ℕ) → covers p x ≤ 1

-- What the operations leave alone.
abbrev pub SameFrame : Pallocator → Pallocator → Type 0
SameFrame p p' =
    (p'.start_addr ≡ p.start_addr)
    × (p'.end_addr ≡ p.end_addr)
    × (p'.first_order_size ≡ p.first_order_size)
    × (p'.fo_bits ≡ p.fo_bits)
    × (p'.max_order ≡ p.max_order)

pub count-append :
    (size : ℕ) (zs ws : List ℕ) (x : ℕ)
    → count size (zs ++ ws) x ≡ count size zs x + count size ws x
count-append size [] ws x = omega arith
count-append size (z ∷ zs) ws x = omega (arith, count-append size zs ws x)

pub count-without_last :
    (size : ℕ) (zs : List ℕ) (x : ℕ)
    → is_empty zs ≡ false
    → count size (without_last zs) x + holds size (last_zone zs) x ≡ count size zs x
count-without_last size [] x h = absurd (ground (arith, h))
count-without_last size (z ∷ []) x h = omega arith
count-without_last size (z ∷ w ∷ zs) x h = omega (arith, count-without_last size (w ∷ zs) x refl)

pub count_positive : (size : ℕ) (zs : List ℕ) (z : ℕ) → 0 < size → IsIn z zs → 1 ≤ count size zs z
count_positive size [] z h i = absurd i
count_positive size (w ∷ zs) z h i = elim i [
  | inl e ↦ ground (arith, e)
  | inr j ↦ omega (arith, count_positive size zs z h j)
]

-- A list of an order that is not counted.
pub total-at_above :
    (k : ℕ) (lists : ℕ → List ℕ) (o : ℕ) (zs : List ℕ) (n x : ℕ)
    → n ≤ o
    → total k (at lists o zs) n x ≡ total k lists n x
total-at_above k lists o zs zero x h = refl
total-at_above k lists o zs (suc n) x h =
    let other : (n == o) ≡ false = ground arith in
    rw (other, total-at_above k lists o zs n x (omega arith)) refl

-- One list is exchanged.
pub total-at :
    (k : ℕ) (lists : ℕ → List ℕ) (o : ℕ) (zs : List ℕ) (n x : ℕ)
    → o < n
    → total k (at lists o zs) n x + count (2 ^ (o + k)) (lists o) x
      ≡ total k lists n x + count (2 ^ (o + k)) zs x
total-at k lists o zs zero x h = absurd (omega arith)
total-at k lists o zs (suc n) x h = elim (Bool-cases (n == o)) [
  | inl same ↦
      rw (same, ==→eq n o same, total-at_above k lists o zs o x (omega arith)) (omega arith)
  | inr other ↦
      rw other (
        omega (arith, ==→ne _ _ other, total-at k lists o zs n x (ground (arith, ==→ne _ _ other))))
]

pub count-le-total :
    (k : ℕ) (lists : ℕ → List ℕ) (o n x : ℕ)
    → o < n
    → count (2 ^ (o + k)) (lists o) x ≤ total k lists n x
count-le-total k lists o zero x h = absurd (omega arith)
count-le-total k lists o (suc n) x h = elim (Bool-cases (n == o)) [
  | inl same ↦ rw (==→eq n o same) (omega arith)
  | inr other ↦ omega (arith, count-le-total k lists o n x (ground (arith, ==→ne _ _ other)))
]

pub IsIn-last_zone : (zs : List ℕ) → is_empty zs ≡ false → IsIn (last_zone zs) zs
IsIn-last_zone [] h = absurd (ground (arith, h))
IsIn-last_zone (z ∷ []) h = inl refl
IsIn-last_zone (z ∷ w ∷ zs) h = inr (IsIn-last_zone (w ∷ zs) refl)

pub IsIn-without_last : (z : ℕ) (zs : List ℕ) → IsIn z (without_last zs) → IsIn z zs
IsIn-without_last z [] i = i
IsIn-without_last z (w ∷ []) i = absurd i
IsIn-without_last z (w ∷ v ∷ zs) i = elim i [
  | inl e ↦ inl e
  | inr j ↦ inr (IsIn-without_last z (v ∷ zs) j)
]

pub IsIn-append_cases : (z : ℕ) (zs ws : List ℕ) → IsIn z (zs ++ ws) → IsIn z zs ⊎ IsIn z ws
IsIn-append_cases z [] ws i = inr i
IsIn-append_cases z (w ∷ zs) ws i = elim i [
  | inl e ↦ inl (inl e)
  | inr j ↦ elim (IsIn-append_cases z zs ws j) [ inl a ↦ inl (inr a) | inr b ↦ inr b ]
]
