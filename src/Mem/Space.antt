-- ===== src/Mem/Space.antt =====
-- src/mem/vmem.cpp: the calls of an address space that mark, map and unmap zones. The list of zones is
-- their sequence in ascending order, the kernel's last; `node` is what `new` returns, null where there
-- is no memory.
pub mod Sync
pub mod Alloc
use cpp_os.Base.{
  ℕ, zero, suc, ◌+◌, ◌-◌, ◌/◌, Bool, true, false, ◌&&◌, ◌||◌, Option, none, some, List, [], ◌∷◌,
  ◌++◌, ◌==◌, if◌then◌else◌, map, length,
}
use mathlib.Core.Option
use cpp_os.Util.Misc.{align_up, align_down}
use cpp_os.Mem.Zones.{
  Zone, AllocType, valloc, map as map_type, reserve as reserve_type, kernel, zone_position,
  find_address, page_size,
}
use cpp_os.Mem.Pages.{Pages}
use cpp_os.Mem.Pages.Walk.{map_internal, unmap_internal}
use cpp_os.Mem.Collect.{PhysAllocation}

-- `struct virt_zone` with its physical side.
pub record Entry : Type 0 where
  pub zone : Zone
  pub allocations : List PhysAllocation
  pub flags : ℕ
  pub phys_addr : ℕ

-- An address space; `current` says that it is the running process's, and `synced` has the pages whose
-- translation the processor was told to forget.
pub record Space : Type 0 where
  pub virt_allocs : List Entry
  pub pages : Pages
  pub pml4_table : ℕ
  pub current : Bool
  pub synced : List ℕ

abbrev pub zones_of : List Entry → List Zone
zones_of [] = []
zones_of (e ∷ es) = e.zone ∷ zones_of es

abbrev pub nodes_of : List Entry → List ℕ
nodes_of [] = []
nodes_of (e ∷ es) = e.zone.node ∷ nodes_of es

-- The same zones, the last first.
abbrev pub descending : List Entry → List Zone → List Zone
descending [] zs = zs
descending (e ∷ es) zs = descending es (e.zone ∷ zs)

abbrev pub insert_entry : ℕ → Entry → List Entry → List Entry
insert_entry i a [] = a ∷ []
insert_entry zero a (e ∷ es) = a ∷ e ∷ es
insert_entry (suc i) a (e ∷ es) = e ∷ insert_entry i a es

-- `virt_allocs.remove_p`
abbrev pub erase_node : ℕ → List Entry → List Entry
erase_node n [] = []
erase_node n (e ∷ es) = if e.zone.node == n then es else e ∷ erase_node n es

abbrev pub same_type : AllocType → AllocType → Bool
same_type valloc valloc = true
same_type map_type map_type = true
same_type reserve_type reserve_type = true
same_type kernel kernel = true
same_type t u = false

-- The test of the loops over the zones.
abbrev pub is_at : AllocType → ℕ → Entry → Bool
is_at t virt_addr e = (e.zone.virt_addr == virt_addr) && same_type e.zone.type t

-- The first zone of a type at an address, and the zones without it.
unfoldable pub find_entry : AllocType → ℕ → List Entry → Option Entry
find_entry t v [] = none
find_entry t v (e ∷ es) = let rest = find_entry t v es in if is_at t v e then some e else rest

unfoldable pub remove_entry : AllocType → ℕ → List Entry → List Entry
remove_entry t v [] = []
remove_entry t v (e ∷ es) = let rest = remove_entry t v es in if is_at t v e then es else e ∷ rest

-- `bool insert_virt_zone (virt_zone &allocation)` with the index that `zone_position` finds, where the
-- cursor of the list is right. Behind the first zone and in front of another the loop has left the cursor
-- at that index, and `insert` puts the zone one place early: `insert-get` of Util/LinkedList/Cursor. `none` is
-- the index 1, where it writes through the first zone's `prev` and the zone is on no path from the start.
unfoldable pub insert_found : List Entry → Entry → Option ℕ → Option (Bool × List Entry)
insert_found es a none = some (false, es)
insert_found es a (some i) =
    if i == length es
    then some (true, es ++ (a ∷ []))
    else if i == 0
    then some (true, a ∷ es)
    else if i == 1
    then none
    else some (true, insert_entry (i - 1) a es)

unfoldable pub insert_virt_zone : List Entry → Entry → Option (Bool × List Entry)
insert_virt_zone es a = insert_found es a (zone_position none (zones_of es) a.zone)

-- `usize find_address (struct virt_zone &allocation)`: the address, or 0, and the zones with the new
-- one.
unfoldable pub place_entry : Zone → List Zone → List Entry → Entry → ℕ × List Entry
place_entry k zs es a =
    let (addr, i) = find_address k zs a.zone.len in
    if addr == 0
    then (0, es)
    else (addr, insert_entry i (record a { zone = record a.zone { virt_addr = addr } }) es)

unfoldable pub find_place : List Zone → List Entry → Entry → ℕ × List Entry
find_place [] es a = (0, es)
find_place (k ∷ zs) es a = place_entry k zs es a

abbrev pub new_entry : AllocType → ℕ → ℕ → ℕ → ℕ → ℕ → Entry
new_entry t node virt_addr len flags phys_addr = record {
  zone = record { virt_addr = virt_addr; len = len; type = t; node = node };
  allocations = [];
  flags = flags;
  phys_addr = phys_addr;
}

-- `bool reserve_at (usize virt_addr, usize n)`; `none` is that of `insert_virt_zone`.
unfoldable pub reserve_at : Space → ℕ → ℕ → ℕ → Option (Bool × Space)
reserve_at sp node virt_addr n =
    let a =
      new_entry reserve_type node (align_down virt_addr page_size) (align_up n page_size) 0 0 in
    if node == 0
    then some (false, sp)
    else Option.map (λ (r : Bool × List Entry). (r.0, record sp { virt_allocs = r.1 }))
        (insert_virt_zone sp.virt_allocs a)

-- `void *reserve (usize n)`
unfoldable pub reserve : Space → ℕ → ℕ → ℕ × Space
reserve sp node n =
    let a = new_entry reserve_type node 0 (align_up n page_size) 0 0 in
    let (addr, es) = find_place (descending sp.virt_allocs []) sp.virt_allocs a in
    if n == 0
    then (0, sp)
    else if node == 0
    then (0, sp)
    else (addr, record sp { virt_allocs = es })

-- `void unreserve (usize virt_addr)`
unfoldable pub unreserve : Space → ℕ → Space
unreserve sp virt_addr = record sp {
  virt_allocs = remove_entry reserve_type (align_down virt_addr page_size) sp.virt_allocs;
}

-- The pages of a zone, in order: the rounds of `sync_tlb_raw`.
abbrev pub pages_of : ℕ → ℕ → List ℕ
pages_of zero addr = []
pages_of (suc n) addr = addr ∷ pages_of n (addr + page_size)

-- `void sync_tlb (usize virt_addr)`, over the zones that are left.
unfoldable pub sync_loop : ℕ → List Entry → List ℕ
sync_loop v [] = []
sync_loop v (e ∷ es) =
    let z = e.zone in
    if (same_type z.type valloc || same_type z.type map_type) && (z.virt_addr == v)
    then pages_of (z.len / page_size) z.virt_addr ++ sync_loop v es
    else sync_loop v es

-- `if (&sched::proc_c ().addr_space == this) sync_tlb (virt_addr);`
unfoldable pub sync_tlb : Space → ℕ → Space
sync_tlb sp virt_addr =
    if sp.current
    then record sp {
      synced = sync_loop (align_down virt_addr page_size) sp.virt_allocs ++ sp.synced;
    }
    else sp

-- What `map` and `map_at` do of the result of `map_internal`: a zone that could not be mapped is taken
-- out again. `none` is fuel that is short.
unfoldable pub mapped_zone : Space → ℕ → ℕ → Option (Bool × Pages) → Option (Bool × Space)
mapped_zone sp node virt_addr none = none
mapped_zone sp node virt_addr (some (false, m)) =
    some (false, record sp { virt_allocs = erase_node node sp.virt_allocs; pages = m })
mapped_zone sp node virt_addr (some (true, m)) =
    some (true, sync_tlb (record sp { pages = m }) virt_addr)

-- `bool map_at (usize phys_addr, usize virt_addr, usize n, usize flags)`; `none` is also that of
-- `insert_virt_zone`.
unfoldable pub map_at : Space → ℕ → ℕ → ℕ → ℕ → ℕ → Option (Bool × Space)
map_at sp node phys_addr virt_addr n flags =
    let phys = align_down phys_addr page_size in
    let virt = align_down virt_addr page_size in
    let len = align_up n page_size in
    if (n == 0) || (node == 0)
    then some (false, sp)
    else elim (insert_virt_zone sp.virt_allocs (new_entry map_type node virt len 0 phys)) [
      | none ↦ none
      | some (false, es) ↦ some (false, sp)
      | some (true, es) ↦
          mapped_zone (record sp { virt_allocs = es }) node virt
            (map_internal sp.pages sp.pml4_table phys virt len flags)
    ]

-- `void *map (usize phys_addr, usize n, usize flags)`: the address, or null.
unfoldable pub map_zone : Space → ℕ → ℕ → ℕ → ℕ → Option (ℕ × Space)
map_zone sp node phys_addr n flags =
    let phys = align_down phys_addr page_size in
    let len = align_up n page_size in
    let a = new_entry map_type node 0 len 0 phys in
    let (virt, es) = find_place (descending sp.virt_allocs []) sp.virt_allocs a in
    if (n == 0) || (node == 0)
    then some (0, sp)
    else if virt == 0
    then some (0, sp)
    else Option.map (λ (r : Bool × Space). (if r.0 then virt else 0, r.1))
        (mapped_zone (record sp { virt_allocs = es }) node virt
          (map_internal sp.pages sp.pml4_table phys virt len flags))

-- `void *unmap (usize virt_addr)`: the physical address, or null where no zone is mapped there.
unfoldable pub unmap_entry : Space → ℕ → Option Entry → Option (ℕ × Space)
unmap_entry sp v none = some (0, sync_tlb sp v)
unmap_entry sp v (some e) =
    Option.map
      (λ (m : Pages). (
        e.phys_addr,
        record sp { pages = m; virt_allocs = remove_entry map_type v sp.virt_allocs },
      ))
      (unmap_internal sp.pages sp.pml4_table e.zone.virt_addr e.zone.len)

unfoldable pub unmap : Space → ℕ → Option (ℕ × Space)
unmap sp virt_addr =
    let v = align_down virt_addr page_size in
    unmap_entry sp v (find_entry map_type v sp.virt_allocs)
