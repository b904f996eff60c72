-- ===== src/Mem/Nodes/Setup.antt =====
-- src/mem/mem.cpp: how `init` makes nodes of the boot loader's memory map. The ends of the kernel are
-- arguments.
use cpp_os.Base.{
  ℕ, ◌+◌, ◌-◌, ◌<◌, ◌≤◌, ◌≡◌, ◌^◌, refl, Bool, true, ◌&&◌, ◌||◌, not, Option, none, some, List, [],
  ◌∷◌, ltb, leb, ◌==◌, if◌then◌else◌, add64, sub64, arith,
}
use mathlib.Core.Option
use cpp_os.Mem.Zones.{page_size}
use cpp_os.Mem.Buddy.{Pallocator, at}
use cpp_os.Mem.Buddy.Init.{init}

abbrev pub max_mem_nodes : ℕ
max_mem_nodes = 4

-- `BUDDY_ALLOC_MIN_SIZE`, twice `FIRST_ORDER_SIZE`
abbrev pub buddy_alloc_min_size : ℕ
buddy_alloc_min_size = 65536

-- `struct mmap_entry`
pub record MmapEntry : Type 0 where
  pub addr : ℕ
  pub len : ℕ
  pub type : ℕ

-- `x >= entry->addr && x < entry->addr + entry->len`
abbrev pub is_inside : ℕ → MmapEntry → Bool
is_inside x e = leb e.addr x && ltb x (add64 e.addr e.len)

-- `out` and the allocator after one more call of its `init` under `f`; `none` as for `init`.
unfoldable pub init_when : Bool → ℕ → ℕ → ℕ → Option (ℕ × Pallocator) → Option (ℕ × Pallocator)
init_when f fuel start stop none = none
init_when f fuel start stop (some (out, p)) =
    let made = Option.map (λ (p' : Pallocator). (out + 1, p')) (init fuel p start stop page_size) in
    if f then made else some (out, p)

-- `u8 init_allocator (mem::pallocator *allocer, struct mmap_entry *entry)`: the number of nodes that
-- it reports, and the one allocator that it was given.
unfoldable pub init_allocator : ℕ → ℕ → ℕ → Pallocator → MmapEntry → Option (ℕ × Pallocator)
init_allocator fuel text_start kernel_end p e =
    let last = sub64 (add64 e.addr e.len) 1 in
    let text = is_inside text_start e in
    let ends = is_inside kernel_end e in
    let below =
      init_when (text && leb buddy_alloc_min_size (sub64 text_start e.addr)) fuel e.addr
        (sub64 text_start 1) (some (0, p)) in
    let above =
      init_when (ends && leb buddy_alloc_min_size (sub64 last kernel_end)) fuel (add64 kernel_end 1)
        last below in
    init_when (not text && not ends) fuel e.addr last above

-- The loop of `init` over the memory map; `none` is also the panic over too many nodes.
unfoldable pub init_nodes :
    ℕ → ℕ → ℕ → ℕ → List MmapEntry → (ℕ → Pallocator) → ℕ → Option ((ℕ → Pallocator) × ℕ)
init_nodes fuel text_start kernel_end kernel_vma [] nodes n = some (nodes, n)
init_nodes fuel text_start kernel_end kernel_vma (e ∷ es) nodes n =
    if not (ltb n max_mem_nodes)
    then some (nodes, n)
    else if not (e.type == 1) || ltb e.len buddy_alloc_min_size
    then init_nodes fuel text_start kernel_end kernel_vma es nodes n
    else elim (init_allocator fuel text_start kernel_end (nodes n)
        (record e { addr = add64 e.addr kernel_vma })) [
          | none ↦ none
          | some (made, p) ↦
              if ltb max_mem_nodes (n + made)
              then none
              else init_nodes fuel text_start kernel_end kernel_vma es (at nodes n p) (n + made)
        ]

-- Where an entry has room below the kernel and above it, `init_allocator` reports two nodes, but it
-- has set up one allocator, twice: the second call overwrites the bounds that the first has set.
pub init_allocator_twice :
    (fuel text_start kernel_end : ℕ) (p p₁ p₂ : Pallocator) (e : MmapEntry)
    → e.addr + e.len < 2 ^ 64
    → e.addr + buddy_alloc_min_size ≤ text_start
    → text_start ≤ kernel_end
    → kernel_end + buddy_alloc_min_size < e.addr + e.len
    → init fuel p e.addr (text_start - 1) page_size ≡ some p₁
    → init fuel p₁ (kernel_end + 1) (e.addr + e.len - 1) page_size ≡ some p₂
    → init_allocator fuel text_start kernel_end p e ≡ some (2, p₂)
unfolding init_allocator init_when
init_allocator_twice fuel text_start kernel_end p p₁ p₂ e w room ord above first second =
    let last : sub64 (add64 e.addr e.len) 1 ≡ e.addr + e.len - 1 = omega arith in
    let text : is_inside text_start e ≡ true = ground arith in
    let ends : is_inside kernel_end e ≡ true = ground arith in
    let low : leb buddy_alloc_min_size (sub64 text_start e.addr) ≡ true = ground arith in
    let high : leb buddy_alloc_min_size (sub64 (e.addr + e.len - 1) kernel_end) ≡ true =
      ground arith in
    let before : sub64 text_start 1 ≡ text_start - 1 = omega arith in
    let behind : add64 kernel_end 1 ≡ kernel_end + 1 = omega arith in
    rw (text, ends, low, last, high, before, first, behind, second) refl
