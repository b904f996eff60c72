-- ===== src/Mem/Kmem/Reuse.antt =====
-- The blocks that `kalloc` of src/mem/kmem.cpp hands out when the heap grows, and what `kfree` does
-- below the first chunk.
use cpp_os.Base.{
  ℕ, suc, ◌+◌, ◌*◌, ◌%◌, ◌^◌, max, ◌<◌, ◌≤◌, ◌≡◌, ◌≢◌, refl, ap, true, false, Option, none, some,
  ltb, leb, ◌==◌, add64, arith, ◌∙◌,
}
use cpp_os.Util.Misc.{align_up, align_down}
use cpp_os.Mem.Kmem.{
  Heap, kalloc, kalloc_loop, take_chunk, grow_heap, put, kfree, kfree_loop, free_before,
  mem_chunk_size,
}

-- The address that a call returned.
abbrev pub block : Option (ℕ × Heap) → ℕ
block none = 0
block (some (a, h)) = a

abbrev pub heap_or : Heap → Option (ℕ × Heap) → Heap
heap_or d none = d
heap_or d (some (a, h)) = h

take_chunk-block :
    (h : Heap) (n head prev i : ℕ) → head ≢ 0 → block (take_chunk h head n prev i) ≡ i
unfolding take_chunk grow_heap
take_chunk-block h n head prev i ne = ground arith

-- One chunk, which is too small.
grown : Heap → ℕ → ℕ → Heap
grown h head n = record h {
  next = put (put h.next h.mem_start head) head 0;
  size = put (put h.size h.mem_start 0) head (max 8 n * 4096 % 2 ^ 64);
}

kalloc_grows :
    (fuel : ℕ) (h : Heap) (head n : ℕ)
    → 0 < n
    → head ≢ 0
    → h.next h.mem_start ≢ 0
    → h.next (h.next h.mem_start) ≡ 0
    → h.size (h.next h.mem_start) < align_up n mem_chunk_size
    → kalloc (suc fuel) h head n ≡ some (head, grown h head (align_up n mem_chunk_size))
unfolding kalloc kalloc_loop grow_heap grown
kalloc_grows fuel h head n lo ne chunk last small =
    let a : (n == 0) ≡ false = ground arith in
    let b : (h.next h.mem_start == 0) ≡ false = ground (arith, chunk) in
    let c : leb (align_up n mem_chunk_size) (h.size (h.next h.mem_start)) ≡ false = ground arith in
    let d : (h.next (h.next h.mem_start) == 0) ≡ true = ground (arith, last) in
    let e : (head == 0) ≡ false = ground arith in rw (a, b, c, d, e) refl

-- A chunk that is large enough and comes first.
kalloc_first :
    (fuel : ℕ) (h : Heap) (head n i : ℕ)
    → 0 < n
    → head ≢ 0
    → h.next h.mem_start ≡ i
    → i ≢ 0
    → align_up n mem_chunk_size ≤ h.size i
    → block (kalloc (suc fuel) h head n) ≡ i
unfolding kalloc kalloc_loop
kalloc_first fuel h head n i lo ne first chunk fits =
    let a : (n == 0) ≡ false = ground arith in
    let b : (i == 0) ≡ false = ground arith in
    let c : leb (align_up n mem_chunk_size) (h.size i) ≡ true = ground arith in
    rw (a, first, b, c) (take_chunk-block h (align_up n mem_chunk_size) head h.mem_start i ne)

-- The block that `kalloc` returns after it had to grow the heap stays on the free list: with one
-- chunk in the list, which is too small for a request that rounds to less than `2 ^ 50` bytes, and
-- pages that are not null and not `mem_start`, the call returns the new pages, and the next call for
-- the same number of bytes returns the same address again.
pub kalloc_twice :
    (fuel : ℕ) (h : Heap) (head again n : ℕ)
    → 0 < n
    → head ≢ 0
    → again ≢ 0
    → h.mem_start ≢ head
    → h.next h.mem_start ≢ 0
    → h.next (h.next h.mem_start) ≡ 0
    → h.size (h.next h.mem_start) < align_up n mem_chunk_size
    → align_up n mem_chunk_size < 2 ^ 50
    → (block (kalloc (suc fuel) h head n) ≡ head)
      × (block (kalloc (suc fuel) (heap_or h (kalloc (suc fuel) h head n)) again n) ≡ head)
unfolding grown
kalloc_twice fuel h head again n lo ne ne' apart chunk last small bound =
    let e = kalloc_grows fuel h head n lo ne chunk last small in
    let g = grown h head (align_up n mem_chunk_size) in
    (
      ap block e,
      ap (λ (r : Option (ℕ × Heap)). block (kalloc (suc fuel) (heap_or h r) again n)) e
          ∙ kalloc_first fuel g again n head lo ne' (ground arith) ne (ground arith),
    )

-- `kfree` below the first free chunk keeps the memory, where the address of that chunk and the size
-- of `mem_start` do not wrap: the test that should see whether the block
-- overlaps the chunk in front adds that chunk's size to the address of the chunk behind, so it
-- always refuses and the list stays as it was.
pub kfree_below :
    (fuel : ℕ) (h : Heap) (addr n : ℕ)
    → 0 < n
    → align_down addr mem_chunk_size < h.next h.mem_start
    → h.next h.mem_start + h.size h.mem_start < 2 ^ 64
    → kfree (suc fuel) h addr n ≡ some h
unfolding kfree kfree_loop free_before
kfree_below fuel h addr n lo below fits =
    let a : (n == 0) ≡ false = ground arith in
    let b : ltb (align_down addr mem_chunk_size) (h.next h.mem_start) ≡ true = ground arith in
    let c : ltb (align_down addr mem_chunk_size) (add64 (h.next h.mem_start) (h.size h.mem_start))
        ≡ true =
      ground arith in
    rw (a, b, c) refl
