-- ===== src/Mem/Zones.antt =====
-- The zones of an address space, src/mem/vmem.cpp: where a new zone is put.
pub mod Ordered
use cpp_os.Base.{
  ℕ, suc, ◌+◌, ◌-◌, ◌^◌, Bool, true, ◌&&◌, ◌||◌, Option, none, some, List, [], ◌∷◌, ltb, leb, ◌==◌,
  if◌then◌else◌, add64, sub64, length,
}
use mathlib.Core.Option

-- `enum alloc_type`
pub data AllocType : Type 0 where
  valloc map reserve kernel : AllocType

-- `struct virt_zone`, less its physical allocations; `node` is the zone's own address.
pub record Zone : Type 0 where
  pub virt_addr : ℕ
  pub len : ℕ
  pub type : AllocType
  pub node : ℕ

-- `MAX_MEM` and `PAGE_SIZE`
abbrev pub max_mem : ℕ
max_mem = 2 ^ 48

abbrev pub page_size : ℕ
page_size = 4096

-- `virt_addr + len` on 64 bits.
abbrev pub zone_end : Zone → ℕ
zone_end z = add64 z.virt_addr z.len

-- `last == NULL || allocation.virt_addr >= last->virt_addr + last->len`
abbrev pub behind : Option Zone → ℕ → Bool
behind none addr = true
behind (some l) addr = leb (zone_end l) addr

-- `bool addr_space::insert_virt_zone (virt_zone &allocation)`: the index that is given to
-- `virt_allocs.insert`, or to `append` where it is the length; `none` is the result false. `last`
-- is the zone in front of those that are left.
unfoldable pub zone_position : Option Zone → List Zone → Zone → Option ℕ
zone_position last [] a =
    if behind last a.virt_addr && leb (zone_end a) max_mem then some 0 else none
zone_position last (c ∷ cs) a =
    let rest = Option.map suc (zone_position (some c) cs a) in
    if leb c.virt_addr a.virt_addr && ltb a.virt_addr (zone_end c)
    then none
    else if behind last a.virt_addr && ltb (zone_end a) c.virt_addr
    then some 0
    else rest

-- `usize addr_space::get_free_space (usize virt_addr)`
unfoldable pub free_space : Option Zone → List Zone → ℕ → ℕ
free_space last [] addr = if behind last addr then sub64 max_mem addr else 0
free_space last (c ∷ cs) addr =
    let rest = free_space (some c) cs addr in
    if leb c.virt_addr addr && ltb addr (zone_end c)
    then 0
    else if behind last addr && ltb addr c.virt_addr
    then sub64 c.virt_addr addr
    else rest

-- The loop of `find_address`, from the last zone but one down: `last` is the zone above, the list
-- holds the zones below in descending order. The result is the gap's start and the number of zones
-- below it; without a gap, the zone at which the loop stopped.
pub data Gap : Type 0 where
  found : ℕ → ℕ → Gap
  not_found : Zone → Gap

unfoldable pub find_gap : Zone → List Zone → ℕ → Gap
find_gap last [] n = not_found last
find_gap last (c ∷ cs) n =
    let rest = find_gap c cs n in
    if leb n (sub64 last.virt_addr (zone_end c)) then found (zone_end c) (length cs + 1) else rest

-- `usize addr_space::find_address (struct virt_zone &allocation)` for a zone of `n` bytes: the
-- address, which is 0 on failure, and the index of the new zone. The zones are in descending
-- order, the kernel's first. The last test reads the address of the lowest zone's node.
unfoldable pub below_all : Zone → ℕ → ℕ × ℕ
below_all c n = if leb n (sub64 c.node page_size) then (page_size, 0) else (0, 0)

unfoldable pub find_address : Zone → List Zone → ℕ → ℕ × ℕ
find_address k [] n = if leb n (sub64 k.virt_addr page_size) then (page_size, 0) else (0, 0)
find_address k (c ∷ cs) n = elim (find_gap k (c ∷ cs) n) [
  | found addr i ↦ if addr == 0 then below_all c n else (addr, i)
  | not_found z ↦ below_all z n
]
