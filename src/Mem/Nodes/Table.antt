-- ===== src/Mem/Nodes/Table.antt =====
-- src/mem/mem.cpp: `init`, which copies the boot loader's table and reads the memory map in it. Memory is bytes by
-- address.
use mathlib.Core.Option
use cpp_os.Base.{
  ℕ, zero, suc, ◌+◌, ◌-◌, ◌*◌, ◌/◌, ◌%◌, ◌^◌, ◌<◌, ◌≤◌, ◌≡◌, refl, ap, ap₂, ◌∙◌, ◌⊎◌, inl, inr,
  Option, none, some, List, [], ◌∷◌, ◌==◌, if◌then◌else◌, add64, length, arith, Bool-cases,
}
use cpp_os.Util.Misc.{align_up}
use cpp_os.Util.Str.{memcpy}
use cpp_os.Machine.Boot.{get, Tag, Layout, first_tag, place_behind, get-Layout}
use cpp_os.Mem.Buddy.{Pallocator}
use cpp_os.Mem.Nodes.Setup.{MmapEntry, init_nodes}

-- `*(u32 *) a` and `*(u64 *) a`
abbrev pub u32_at : (ℕ → ℕ) → ℕ → ℕ
u32_at m a = m a + 2 ^ 8 * m (a + 1) + 2 ^ 16 * m (a + 2) + 2 ^ 24 * m (a + 3)

abbrev pub u64_at : (ℕ → ℕ) → ℕ → ℕ
u64_at m a = u32_at m a + 2 ^ 32 * u32_at m (a + 4)

-- The entry at an address, of 24 bytes, and `n` of them.
abbrev pub entry_at : (ℕ → ℕ) → ℕ → MmapEntry
entry_at m a = record { addr = u64_at m a; len = u64_at m (a + 8); type = u32_at m (a + 16) }

abbrev pub mmap : ℕ → (ℕ → ℕ) → ℕ → List MmapEntry
mmap zero m a = []
mmap (suc n) m a = entry_at m a ∷ mmap n m (a + 24)

-- `(((u32 *) mmap_header)[1] - 16) / 24`
abbrev pub mmap_len : (ℕ → ℕ) → ℕ → ℕ
mmap_len m header = (u32_at m (header + 4) + 2 ^ 32 - 16) % 2 ^ 32 / 24

-- `MB2_MEM_MAP`
abbrev pub mb2_mem_map : ℕ
mb2_mem_map = 6

-- `void *init (void *mb2_table)`: the place of the copy, the nodes and their number. `none` is fuel that is short or
-- a panic. The entries are read in the copy as it is made; `init` raises the address of each as it is looked at.
unfoldable pub mem_init :
    ℕ → ℕ → (ℕ → ℕ) → ℕ → ℕ → ℕ → ℕ → (ℕ → Pallocator) → Option (ℕ × ((ℕ → Pallocator) × ℕ))
mem_init tags fuel m text_start kernel_end kernel_vma mb2_table nodes =
    let table = align_up kernel_end 8 in
    let m' = memcpy m table mb2_table (u32_at m mb2_table) 0 in
    let ends = add64 kernel_end (u32_at m' table) in
    elim (get tags (λ (i : ℕ). u32_at m' (table + 4 * i)) mb2_mem_map) [
      | none ↦ none
      | some found ↦ elim found [
        | none ↦ none
        | some i ↦
            let header = table + 4 * i in
            Option.map (λ (made : (ℕ → Pallocator) × ℕ). (table, made))
              (init_nodes fuel text_start ends kernel_vma
                (mmap (mmap_len m' header) m' (header + 16)) nodes 0)
      ]
    ]

-- Two regions of `n` bytes have none in common.
abbrev pub Disjoint : ℕ → ℕ → ℕ → Type 0
Disjoint n a b = (a + n ≤ b) ⊎ (b + n ≤ a)

memcpy-before :
    (n i : ℕ) (m : ℕ → ℕ) (dest src a : ℕ) → a < dest + i → memcpy m dest src n i a ≡ m a
unfolding memcpy
memcpy-before zero i m dest src a h = refl
memcpy-before (suc n) i m dest src a h =
    memcpy-before n (i + 1) (λ a. if a == dest + i then m (src + i) else m a) dest src a
      (omega arith)
    ∙ ground (arith, h)

-- What is copied is what stood there, between regions that have nothing in common.
memcpy_lem :
    (n i : ℕ) (m : ℕ → ℕ) (dest src j : ℕ)
    → Disjoint (n + i) dest src
    → i ≤ j
    → j < i + n
    → memcpy m dest src n i (dest + j) ≡ m (src + j)
unfolding memcpy
memcpy_lem zero i m dest src j apart lo hi = absurd (omega arith)
memcpy_lem (suc n) i m dest src j apart lo hi =
    let m₁ : ℕ → ℕ = λ a. if a == dest + i then m (src + i) else m a in
    elim (Bool-cases (j == i)) [
      | inl here ↦
          let same : j ≡ i = ground (arith, here) in
          memcpy-before n (i + 1) m₁ dest src (dest + j) (ground (arith, same))
          ∙ ground (arith, same)
      | inr there ↦
          let kept : m₁ (src + j) ≡ m (src + j) = ground (arith, there, apart) in
          memcpy_lem n (i + 1) m₁ dest src j (ground (arith, apart)) (ground (arith, there))
            (omega arith)
          ∙ kept
    ]

-- The place behind the last tag, where the tag of type 0 is.
abbrev pub tags_end : ℕ → List Tag → ℕ
tags_end k [] = k
tags_end k (t ∷ ts) = tags_end (place_behind k t) ts

tags_end-le : (k : ℕ) (ts : List Tag) → k ≤ tags_end k ts
tags_end-le k [] = omega arith
tags_end-le k (t ∷ ts) = omega (arith, tags_end-le (place_behind k t) ts)

-- The words of a table.
abbrev pub words : (ℕ → ℕ) → ℕ → ℕ → ℕ
words m table i = u32_at m (table + 4 * i)

-- A region that holds the same bytes as another.
module _ (size : ℕ) (m' m : ℕ → ℕ) (a b : ℕ)
    (same : (j : ℕ) → j < size → m' (a + j) ≡ m (b + j)) where
  same_byte : (o c : ℕ) → o + c < size → m' (a + o + c) ≡ m (b + o + c)
  same_byte o c h = ap m' (omega arith) ∙ same (o + c) h ∙ ap m (omega arith)

  u32_same : (o : ℕ) → o + 4 ≤ size → u32_at m' (a + o) ≡ u32_at m (b + o)
  u32_same o h =
      rw
        (
          same o (omega arith),
          same_byte o 1 (omega arith),
          same_byte o 2 (omega arith),
          same_byte o 3 (omega arith),
        )
        refl

  u32_behind : (o c : ℕ) → o + c + 4 ≤ size → u32_at m' (a + o + c) ≡ u32_at m (b + o + c)
  u32_behind o c h = ap (u32_at m') (omega arith) ∙ u32_same (o + c) h ∙ ap (u32_at m) (omega arith)

  u64_same : (o : ℕ) → o + 8 ≤ size → u64_at m' (a + o) ≡ u64_at m (b + o)
  u64_same o h =
      ap₂ (λ (x y : ℕ). x + 2 ^ 32 * y) (u32_same o (omega arith)) (u32_behind o 4 (omega arith))

  entry_same : (o : ℕ) → o + 24 ≤ size → entry_at m' (a + o) ≡ entry_at m (b + o)
  entry_same o h =
      ap₂ (λ (x y : ℕ). record { addr = x; len = y; type = u32_at m' (a + o + 16) })
        (u64_same o (omega arith))
        (ap (u64_at m') (omega arith)
          ∙ u64_same (o + 8) (omega arith)
          ∙ ap (u64_at m) (omega arith))
      ∙ ap (λ (z : ℕ). record { addr = u64_at m (b + o); len = u64_at m (b + o + 8); type = z })
          (u32_behind o 16 (omega arith))

  mmap_same : (n o : ℕ) → o + 24 * n ≤ size → mmap n m' (a + o) ≡ mmap n m (b + o)
  mmap_same zero o h = refl
  mmap_same (suc n) o h = ap₂ (◌∷◌) (entry_same o (omega arith)) (
      ap (mmap n m') (omega arith)
      ∙ mmap_same n (o + 24) (omega arith)
      ∙ ap (mmap n m) (omega arith))

  read_same :
      (o : ℕ)
      → o + 16 + 24 * mmap_len m (b + o) ≤ size
      → mmap (mmap_len m' (a + o)) m' (a + o + 16) ≡ mmap (mmap_len m (b + o)) m (b + o + 16)
  read_same o h =
      let n = mmap_len m (b + o) in
      ap (λ (w : ℕ). mmap ((w + 2 ^ 32 - 16) % 2 ^ 32 / 24) m' (a + o + 16))
        (u32_behind o 4 (omega (arith, h)))
      ∙ ap (mmap n m') (omega arith)
      ∙ mmap_same n (o + 16) h
      ∙ ap (mmap n m) (omega arith)

  words-Layout :
      (k : ℕ) (ts : List Tag)
      → 8 * tags_end k ts + 8 ≤ size
      → Layout (words m b) k ts
      → Layout (words m' a) k ts
  words-Layout k [] h (z, lo) = (u32_same (4 * (2 * k)) (omega arith) ∙ z, lo)
  words-Layout k (t ∷ ts) h (e, used, s, lo, l) =
      let later = tags_end-le (place_behind k t) ts in
      (
        u32_same (4 * (2 * k)) (omega (arith, later)) ∙ e,
        used,
        u32_same (4 * (2 * k + 1)) (omega (arith, later)) ∙ s,
        lo,
        words-Layout (place_behind k t) ts h l,
      )

-- The boot loader's table is copied behind the kernel, and the nodes are made of the memory map that stood in it: for a table
-- whose tags lie one behind the other, which shares no byte with its copy, and in which there is a
-- memory map that ends inside the table.
pub mem_init-init_nodes :
    (ts : List Tag) (fuel : ℕ) (m : ℕ → ℕ) (text_start kernel_end kernel_vma mb2_table : ℕ)
    (nodes : ℕ → Pallocator) (i : ℕ)
    → let size = u32_at m mb2_table in
      let table = align_up kernel_end 8 in
      let header = mb2_table + 4 * i in
      Disjoint size table mb2_table
      → 8 * tags_end 1 ts + 8 ≤ size
      → Layout (words m mb2_table) 1 ts
      → first_tag 1 ts mb2_mem_map ≡ some i
      → 4 * i + 16 + 24 * mmap_len m header ≤ size
      → mem_init (suc (length ts)) fuel m text_start kernel_end kernel_vma mb2_table nodes
        ≡ Option.map
            (λ (made : (ℕ → Pallocator) × ℕ). (table, made))
            (init_nodes fuel text_start
              (add64 kernel_end size)
              kernel_vma
              (mmap (mmap_len m header) m (header + 16))
              nodes
              0)
unfolding mem_init
mem_init-init_nodes ts fuel m text_start kernel_end kernel_vma mb2_table nodes i apart fits l found
      inside =
    let size = u32_at m mb2_table in
    let table = align_up kernel_end 8 in
    let m' = memcpy m table mb2_table size 0 in
    let same : (j : ℕ) → j < size → m' (table + j) ≡ m (mb2_table + j) = λ j h.
      memcpy_lem size 0 m table mb2_table j (ground (arith, apart)) (omega arith) (omega arith) in
    let words_same : u32_at m' table ≡ size =
      ap (u32_at m') (omega arith)
      ∙ u32_same size m' m table mb2_table same 0 (omega arith)
      ∙ ap (u32_at m) (omega arith) in
    let tag : get (suc (length ts)) (words m' table) mb2_mem_map ≡ some (some i) =
      get-Layout ts (words m' table) mb2_mem_map (omega arith)
        (words-Layout size m' m table mb2_table same 1 ts fits l)
      ∙ ap some found in
    rw (mem_init, tag)
      (ap₂
        (λ (s : ℕ) (entries : List MmapEntry).
          Option.map (λ (made : (ℕ → Pallocator) × ℕ). (table, made))
            (init_nodes fuel text_start (add64 kernel_end s) kernel_vma entries nodes 0))
        words_same (read_same size m' m table mb2_table same (4 * i) inside))
