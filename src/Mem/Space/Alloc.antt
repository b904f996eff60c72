-- ===== src/Mem/Space/Alloc.antt =====
-- src/mem/vmem.cpp: memory for a process, from physical blocks to zones. The allocators' state and
-- calls are parameters, as src/mem/mem.cpp gives them.
pub mod Free
use cpp_os.Base.{
  ℕ, zero, suc, ◌+◌, ◌^◌, Bool, true, false, ◌&&◌, ◌||◌, Option, none, some, List, [], ◌∷◌, ◌++◌,
  ltb, ◌==◌, if◌then◌else◌, add64, not, length, get_elem?, sub64,
}
use mathlib.Core.Option
use cpp_os.Util.Misc.{align_up, align_down, get_bits}
use cpp_os.Mem.Zones.{valloc, map as map_type, reserve as reserve_type, kernel, page_size, max_mem}
use cpp_os.Mem.Buddy.{Pallocator}
use cpp_os.Mem.Pages.{Pages, allocz_page, page_set, kernel_vma, v_write}
use cpp_os.Mem.Pages.Walk.{map_internal, unmap_internal}
use cpp_os.Mem.Collect.{PhysAllocation, collect_phys_zones}
use cpp_os.Util.LinkedList.Access.{Cursor, is_right}
use cpp_os.Mem.Space.{
  nodes_of, Entry, Space, is_at, descending, find_place, new_entry, erase_node, sync_tlb, unmap,
  unreserve,
}

-- The array, which src/mem/vmem.cpp fills from the front, is kept with its last entry first.
abbrev pub in_order : List PhysAllocation → List PhysAllocation → List PhysAllocation
in_order [] done = done
in_order (b ∷ bs) done = in_order bs (b ∷ done)

-- The error path of `map_alloc_data` at the block of index `i`.
unfoldable pub undo_blocks : Pages → ℕ → ℕ → ℕ → ℕ → Option (Bool × Pages)
undo_blocks m pml4 start i unmap_len =
    if i == 0
    then some (false, m)
    else Option.map (λ (m' : Pages). (false, m')) (unmap_internal m pml4 start unmap_len)

-- The loop of `map_alloc_data`: block `i` goes to `virt`, and `unmap_len` is the length of the blocks
-- from index 1 up to it.
unfoldable pub map_blocks :
    Pages → ℕ → ℕ → ℕ → ℕ → ℕ → ℕ → List PhysAllocation → Option (Bool × Pages)
map_blocks m pml4 flags start i unmap_len virt [] = some (true, m)
map_blocks m pml4 flags start i unmap_len virt (b ∷ bs) =
    elim (map_internal m pml4 b.addr virt b.len flags) [
      | none ↦ none
      | some (true, m') ↦
          map_blocks m' pml4 flags start (i + 1) (if i == 0 then 0 else add64 unmap_len b.len)
            (add64 virt b.len) bs
      | some (false, m') ↦ undo_blocks m' pml4 start i unmap_len
    ]

-- `void *map_alloc_data (struct virt_allocation *allocation)`: the address, or 0, and the space with
-- the zone on its list where there was room.
unfoldable pub map_alloc_data : Space → Entry → Option (ℕ × Space)
map_alloc_data sp a =
    let (virt, es) = find_place (descending sp.virt_allocs []) sp.virt_allocs a in
    if virt == 0
    then some (0, sp)
    else Option.map
        (λ (r : Bool × Pages).
          (if r.0 then virt else 0, record sp { virt_allocs = es; pages = r.1 }))
        (map_blocks sp.pages sp.pml4_table a.flags virt 0 0 virt (in_order a.allocations []))

-- `addr_space ()`, where `pdp` is the kernel's table and `node` the address of `kernel_z`.
abbrev pub kernel_z : ℕ → Entry
kernel_z node = new_entry kernel node kernel_vma (sub64 max_mem kernel_vma) 0 kernel_vma

-- The kernel's zone goes to the end of an empty list.
unfoldable pub new_space : Pages → ℕ → ℕ → Space
new_space m node pdp =
    let (pml4, m₁) = allocz_page m in
    let (page, m₂) = page_set m₁ pml4 (get_bits kernel_vma 39 47) pdp v_write in
    record {
      virt_allocs = kernel_z node ∷ [];
      pages = m₂;
      pml4_table = pml4;
      current = false;
      synced = [];
    }

-- The loop of `realloc`.
unfoldable pub same_size : ℕ → ℕ → List Entry → ℕ
same_size v n [] = 0
same_size v n (e ∷ es) = if is_at valloc v e && (e.zone.len == n) then v else same_size v n es

-- `free` goes through the list by index, so that the zone that moves into a freed one's place is
-- passed over.
module _ {ℓ} {S : Type ℓ} (alloc : S → ℕ → ℕ × S) (free : S → ℕ → S) where
  -- The loop of `free` over the blocks of a zone, which is mapped from `virt` on.
  unfoldable pub free_blocks : Pages → ℕ → S → ℕ → List PhysAllocation → Option (Pages × S)
  free_blocks m pml4 s virt [] = some (m, s)
  free_blocks m pml4 s virt (b ∷ bs) = elim (unmap_internal m pml4 virt b.len) [
    | none ↦ none
    | some m' ↦ free_blocks m' pml4 (free s b.addr) (add64 virt b.len) bs
  ]

  -- The loop of `free` over the zones; `skip` says that the zone before was taken out, so that this
  -- one stands where the loop has been.
  unfoldable pub free_loop : ℕ → ℕ → Pages → S → Bool → List Entry → Option (List Entry × Pages × S)
  free_loop v pml4 m s skip [] = some ([], m, s)
  free_loop v pml4 m s skip (e ∷ es) = elim (not skip && is_at valloc v e) [
    | false ↦
        Option.map (λ (r : List Entry × Pages × S). (e ∷ r.0, r.1, r.2))
          (free_loop v pml4 m s false es)
    | true ↦ elim (free_blocks m pml4 s v (in_order e.allocations [])) [
      | none ↦ none
      | some (m', s') ↦ free_loop v pml4 m' s' true es
    ]
  ]

  -- `void free (void *mem)`, with the cursor of the list. Each round reads the zone at its index, and
  -- `remove` leaves the cursor at that index or unset, so it stays right; `none` is also a cursor that is
  -- not right at the start.
  unfoldable pub free_mem : Cursor → Space → S → ℕ → Option (Space × S)
  free_mem c sp s mem =
      let v = align_down mem page_size in
      let freed =
        Option.map
          (λ (r : List Entry × Pages × S).
            (sync_tlb (record sp { virt_allocs = r.0; pages = r.1 }) v, r.2))
          (free_loop v sp.pml4_table sp.pages s false sp.virt_allocs) in
      if is_right (nodes_of sp.virt_allocs) c then freed else none

  -- What `alloc` does of the result of `map_alloc_data`. Where no room was found the zone is on no
  -- list, and the list that `remove_p` makes of that is `none`.
  unfoldable pub alloc_mapped : S → ℕ → List Entry → Option (ℕ × Space) → Option (ℕ × Space × S)
  alloc_mapped s node before none = none
  alloc_mapped s node before (some (out, sp)) =
      if not (out == 0)
      then some (out, sync_tlb sp out, s)
      else if length sp.virt_allocs == length before
      then none
      else some (0, record sp { virt_allocs = erase_node node sp.virt_allocs }, s)

  -- What it does of the result of `collect_phys_zones`.
  unfoldable pub alloc_collected :
      Space → ℕ → ℕ → ℕ → Option (Bool × List PhysAllocation × S) → Option (ℕ × Space × S)
  alloc_collected sp node len flags none = none
  alloc_collected sp node len flags (some (false, list, s)) = some (0, sp, s)
  alloc_collected sp node len flags (some (true, list, s)) =
      let a = record (new_entry valloc node 0 len flags 0) { allocations = list } in
      alloc_mapped s node sp.virt_allocs (map_alloc_data sp a)

  -- `void *alloc (usize n, usize flags)`, where `space` is what `mem::get_free_space` returns, `p` the
  -- first allocator and `node` what `new` returns.
  unfoldable pub alloc_mem : ℕ → Pallocator → ℕ → Space → S → ℕ → ℕ → ℕ → Option (ℕ × Space × S)
  alloc_mem fuel p space sp s node n flags =
      let len = align_up n page_size in
      let got = alloc_collected sp node len flags (collect_phys_zones alloc free fuel p s [] len) in
      if (n == 0) || ltb space n || (node == 0) then some (0, sp, s) else got

  -- `void *realloc (void *mem, usize n, usize flags)`: a zone of the same size is kept, and no other
  -- size is served.
  unfoldable pub realloc_mem :
      Cursor → ℕ → Pallocator → ℕ → Space → S → ℕ → ℕ → ℕ → ℕ → Option (ℕ × Space × S)
  realloc_mem c fuel p space sp s node mem n flags =
      let v = align_down mem page_size in
      let allocated = alloc_mem fuel p space sp s node n flags in
      let freed = Option.map (λ (r : Space × S). (0, r.0, r.1)) (free_mem c sp s mem) in
      if v == 0
      then allocated
      else if n == 0
      then freed
      else some (same_size v (align_up n page_size) sp.virt_allocs, sp, s)

  -- `usize sys_realloc (syscall_vals_t *vals, u32 options, usize mem, usize n)`, on the space of the
  -- running process: with `V_USER | V_WRITE | V_XD`.
  unfoldable pub sys_realloc :
      Cursor → ℕ → Pallocator → ℕ → Space → S → ℕ → ℕ → ℕ → Option (ℕ × Space × S)
  sys_realloc c fuel p space sp s node mem n =
      realloc_mem c fuel p space sp s node mem n (2 ^ 2 + 2 ^ 1 + 2 ^ 63)

  -- What `~addr_space ()` does of a zone that it has read, so that the cursor stands there.
  unfoldable pub drop_zone : Space → S → Entry → Option (Space × S)
  drop_zone sp s e = elim e.zone.type [
    | valloc ↦ free_mem none sp s e.zone.virt_addr
    | map_type ↦ Option.map (λ (r : ℕ × Space). (r.1, s)) (unmap sp e.zone.virt_addr)
    | reserve_type ↦ some (unreserve sp e.zone.virt_addr, s)
    | kernel ↦ some (sp, s)
  ]

  -- Its loop, on fuel, from index `i` on: the list gets shorter while it goes through it.
  unfoldable pub drop_zones : ℕ → ℕ → Space → S → Option (Space × S)
  drop_zones zero i sp s = none
  drop_zones (suc fuel) i sp s = elim (get_elem? sp.virt_allocs i) [
    | none ↦ some (sp, s)
    | some e ↦ elim (drop_zone sp s e) [
      | none ↦ none
      | some (sp', s') ↦ drop_zones fuel (i + 1) sp' s'
    ]
  ]

  unfoldable pub delete_space : Space → S → Option (Space × S)
  delete_space sp s =
      Option.map (λ (r : Space × S). (r.0, free r.1 sp.pml4_table))
        (drop_zones (suc (length sp.virt_allocs)) 0 sp s)
