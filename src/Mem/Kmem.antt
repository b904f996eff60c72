-- ===== src/Mem/Kmem.antt =====
-- src/mem/kmem.cpp: the kernel's heap. The chunks' headers are two functions on addresses. A read
-- or a write through the null pointer is a fault, the `none` of a result.
pub mod Reuse
pub mod Resize
use cpp_os.Base.{
  ℕ, zero, suc, ◌+◌, ◌-◌, ◌*◌, ◌%◌, ◌^◌, max, ◌&&◌, ◌||◌, Option, none, some, ltb, leb, ◌==◌,
  if◌then◌else◌, add64, sub64,
}
use mathlib.Core.Option
use cpp_os.Util.Misc.{align_up, align_down}

-- `next` and `size` of every `kmem_chunk`, and the address of `mem_start`.
pub record Heap : Type 0 where
  pub next : ℕ → ℕ
  pub size : ℕ → ℕ
  pub mem_start : ℕ

-- `MEM_CHUNK_SIZE`, `INITIAL_PAGE_COUNT` and `PAGE_REALLOC_COUNT`
abbrev pub mem_chunk_size : ℕ
mem_chunk_size = 16

abbrev pub initial_page_count : ℕ
initial_page_count = 8

abbrev pub page_realloc_count : ℕ
page_realloc_count = 8

abbrev pub put : (ℕ → ℕ) → ℕ → ℕ → ℕ → ℕ
put f a v b = if b == a then v else f b

-- `void *grow_heap (usize page_count)`: `head` is what `mem::alloc` returned.
unfoldable pub grow_heap : Heap → ℕ → ℕ → Option Heap
grow_heap h head page_count =
    if head == 0
    then none
    else some (record h {
      next = put (put h.next h.mem_start head) head 0;
      size = put (put h.size h.mem_start 0) head (page_count * 4096 % 2 ^ 64);
    })

-- `memset (out, n, 0)`, on the headers.
unfoldable pub clear : Heap → ℕ → ℕ → Heap
clear h out n = record h {
  next = λ a. if leb out a && ltb a (out + n) then 0 else h.next a;
  size = λ a. if leb out a && ltb a (out + n) then 0 else h.size a;
}

-- `kalloc` at a chunk `i` that is large enough, with the chunk in front of it: the block is the
-- chunk's lower end, and the rest of the chunk takes its place in the list.
unfoldable pub take_chunk : Heap → ℕ → ℕ → ℕ → ℕ → Option (ℕ × Heap)
take_chunk h head n prev i =
    let left = sub64 (h.size i) n in
    let cut = record h { size = put h.size i left } in
    if left == 0
    then (if prev == h.mem_start && h.next i == 0
        then Option.map (λ (g : Heap). (i, clear g i n)) (grow_heap cut head page_realloc_count)
        else some (i, clear (record cut { next = put h.next prev (h.next i) }) i n))
    else (let new_addr = add64 i n in
        let copied = put (put h.next new_addr (h.next i)) prev new_addr in
        some (i, clear (record cut { next = copied; size = put cut.size new_addr left }) i n))

-- The loop of `kalloc`, on fuel for the chunks that are left.
unfoldable pub kalloc_loop : ℕ → Heap → ℕ → ℕ → ℕ → ℕ → Option (ℕ × Heap)
kalloc_loop zero h head n prev i = none
kalloc_loop (suc fuel) h head n prev i =
    let rest = kalloc_loop fuel h head n i (h.next i) in
    if i == 0
    then none
    else if leb n (h.size i)
    then take_chunk h head n prev i
    else if h.next i == 0
    then Option.map (λ (g : Heap). (head, g)) (grow_heap h head (max page_realloc_count n))
    else rest

-- `void *mem::kalloc (usize n)`, on fuel for the chunks of the list; `head` is what `mem::alloc`
-- returns if it is called.
unfoldable pub kalloc : ℕ → Heap → ℕ → ℕ → Option (ℕ × Heap)
kalloc fuel h head n =
    if n == 0
    then some (0, h)
    else kalloc_loop fuel h head (align_up n mem_chunk_size) h.mem_start (h.next h.mem_start)

-- `kfree` in front of the chunk `i`.
unfoldable pub free_before : Heap → ℕ → ℕ → ℕ → ℕ → Heap
free_before h addr n prev i =
    let joined =
      (if add64 addr n == i
        then record h {
          next = put h.next addr (h.next i);
          size = put h.size addr (add64 (h.size i) n);
        }
        else record h { next = put h.next addr i; size = put h.size addr n }) in
    if ltb addr (add64 (h.next prev) (h.size prev)) || ltb i (add64 addr n)
    then h
    else if add64 prev (h.size prev) == addr
    then record joined {
      next = put joined.next prev (joined.next addr);
      size = put joined.size prev (add64 (joined.size prev) (joined.size addr));
    }
    else record joined { next = put joined.next prev addr }

-- The loop of `kfree`, on fuel for the chunks that are left.
unfoldable pub kfree_loop : ℕ → Heap → ℕ → ℕ → ℕ → ℕ → Option Heap
kfree_loop zero h addr n prev i = none
kfree_loop (suc fuel) h addr n prev i =
    let rest = kfree_loop fuel h addr n i (h.next i) in
    let last = record h { next = put (put h.next i addr) addr 0; size = put h.size addr n } in
    if ltb addr i
    then some (free_before h addr n prev i)
    else if i == 0
    then none
    else if h.next i == 0
    then some last
    else rest

-- `void mem::kfree (void *addr, usize n)`, on fuel for the chunks of the list.
unfoldable pub kfree : ℕ → Heap → ℕ → ℕ → Option Heap
kfree fuel h addr n =
    if n == 0
    then some h
    else kfree_loop fuel h (align_down addr mem_chunk_size) (align_up n mem_chunk_size) h.mem_start
        (h.next h.mem_start)
