-- ===== src/Mem/Kmem/Resize.antt =====
-- src/mem/kmem.cpp: `krealloc`.
use cpp_os.Base.{
  ℕ, zero, suc, ◌+◌, ◌-◌, ◌≡◌, refl, ◌⊎◌, inl, inr, max, ◌&&◌, not, Option, none, some, ltb, leb,
  ◌==◌, if◌then◌else◌, add64, sub64, Bool-cases,
}
use mathlib.Core.Option
use cpp_os.Util.Misc.{align_up, align_down}
use cpp_os.Mem.Kmem.{Heap, kalloc, kfree, put, mem_chunk_size}

-- `memcpy` of a block, as far as the headers of chunks lie in it.
unfoldable pub copy_block : Heap → ℕ → ℕ → ℕ → Heap
copy_block h out addr n = record h {
  next = λ a. if leb out a && ltb a (out + n) then h.next (a - out + addr) else h.next a;
  size = λ a. if leb out a && ltb a (out + n) then h.size (a - out + addr) else h.size a;
}

-- What `kmem_resize_move` does of the result of `kalloc`.
unfoldable pub after_kalloc : ℕ → ℕ → ℕ → Option (ℕ × Heap) → Option (ℕ × Heap)
after_kalloc fuel addr orig none = none
after_kalloc fuel addr orig (some (out, h)) =
    if out == 0
    then some (0, h)
    else Option.map (λ (g : Heap). (out, g)) (kfree fuel (copy_block h out addr orig) addr orig)

-- `void *kmem_resize_move (void *addr, usize orig, usize n)`
unfoldable pub kmem_resize_move : ℕ → ℕ → Heap → ℕ → ℕ → ℕ → Option (ℕ × Heap)
kmem_resize_move fuel head h addr orig n = after_kalloc fuel addr orig (kalloc fuel h head n)

-- The chunk `i` gives up its first `diff` bytes.
unfoldable pub expand : Heap → ℕ → ℕ → ℕ → Heap
expand h prev i diff =
    let size = put h.size i (sub64 (h.size i) diff) in
    let new_addr = add64 i diff in
    record h {
      size = put size new_addr (size i);
      next = put (put h.next new_addr (h.next i)) prev new_addr;
    }

-- The loop of `krealloc`, on fuel for the chunks that are left; the moves get `calls`. A chunk that
-- was cut down is followed like any other.
unfoldable pub krealloc_loop : ℕ → ℕ → ℕ → Heap → ℕ → ℕ → ℕ → ℕ → ℕ → Option (ℕ × Heap)
krealloc_loop zero calls head h addr orig n prev i = none
krealloc_loop (suc fuel) calls head h addr orig n prev i =
    let addr_ptr = align_down addr mem_chunk_size in
    let diff = sub64 n orig in
    let fits = leb diff (h.size i) && (i == add64 addr_ptr orig) in
    let g = (if ltb addr_ptr i && fits then expand h prev i diff else h) in
    let rest = krealloc_loop fuel calls head g addr orig n i (g.next i) in
    if i == 0
    then none
    else if ltb addr_ptr i && not fits
    then kmem_resize_move calls head h addr orig n
    else if g.next i == 0
    then kmem_resize_move calls head g addr orig n
    else rest

-- `void *mem::krealloc (void *addr, usize orig, usize n)`
unfoldable pub krealloc : ℕ → ℕ → Heap → ℕ → ℕ → ℕ → Option (ℕ × Heap)
krealloc fuel head h addr orig n =
    let old = max (align_up orig mem_chunk_size) mem_chunk_size in
    let new = max (align_up n mem_chunk_size) mem_chunk_size in
    let freed =
      Option.map (λ (g : Heap). (if new == 0 then 0 else addr, g))
        (kfree fuel h (add64 addr new) (old - new)) in
    let moved = krealloc_loop fuel fuel head h addr old new h.mem_start (h.next h.mem_start) in
    if old == new then some (addr, h) else if ltb new old then freed else moved

-- Whatever the chunks are, the loop ends in a move or in a fault: a chunk behind the block that has
-- room is cut down, and the loop goes on.
pub krealloc_loop_moves :
    (fuel calls head : ℕ) (h : Heap) (addr orig n prev i : ℕ)
    → (krealloc_loop fuel calls head h addr orig n prev i ≡ none)
      ⊎ ((g : Heap) × (krealloc_loop fuel calls head h addr orig n prev i
            ≡ kmem_resize_move calls head g addr orig n))
unfolding krealloc_loop
krealloc_loop_moves zero calls head h addr orig n prev i = inl refl
krealloc_loop_moves (suc fuel) calls head h addr orig n prev i =
    let addr_ptr = align_down addr mem_chunk_size in
    let diff = sub64 n orig in
    let fits = leb diff (h.size i) && (i == add64 addr_ptr orig) in
    let g = (if ltb addr_ptr i && fits then expand h prev i diff else h) in
    elim (Bool-cases (i == 0)) [
      | inl null ↦ inl (rw null refl)
      | inr some_chunk ↦ elim (Bool-cases (ltb addr_ptr i && not fits)) [
        | inl away ↦ inr (h, rw (some_chunk, away) refl)
        | inr near ↦ elim (Bool-cases (g.next i == 0)) [
          | inl last ↦ inr (g, rw (some_chunk, near, last) refl)
          | inr more ↦
              rw (some_chunk, near, more)
                (krealloc_loop_moves fuel calls head g addr orig n i (g.next i))
        ]
      ]
    ]
