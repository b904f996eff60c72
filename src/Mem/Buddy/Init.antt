-- ===== src/Mem/Buddy/Init.antt =====
-- src/mem/pmem.cpp: `pallocator::init`, which cuts a range of memory into free zones.
pub mod Filled
use cpp_os.Base.{
  ℕ, zero, suc, ◌+◌, ◌-◌, ◌*◌, ◌/◌, ◌%◌, ◌^◌, max, false, Option, none, some, [], ◌∷◌, ◌++◌, ltb,
  if◌then◌else◌, sub64, add64,
}
use cpp_os.Util.Misc.{align_up, align_down, align_of}
use cpp_os.Util.Math.{log2}
use cpp_os.Mem.Zones.{page_size}
use cpp_os.Mem.Buddy.{Pallocator, at}

-- The first part of `init`, up to the loop: the bounds, the orders and the metadata.
unfoldable pub set_up : Pallocator → ℕ → ℕ → ℕ → Pallocator
set_up p start_addr end_addr first_order_size =
    let first = max first_order_size page_size in
    let s = align_up start_addr first in
    let end_meta = align_down end_addr first in
    let diff = sub64 end_meta s in
    let stop =
      align_down (sub64 end_meta (align_up (8 * (diff / first) % 2 ^ 64) page_size)) first in
    let cleared = sub64 end_meta stop in
    record p {
      free_space = 0;
      start_addr = s;
      first_order_size = first;
      fo_bits = log2 first;
      end_addr = stop;
      alloced = λ m. if ltb m cleared then false else p.alloced m;
      order = λ m. if ltb m cleared then 0 else p.order m;
    }

-- `while (size > this->end_addr - temp_s) size >>= 1;` for at most `fuel` rounds.
unfoldable pub fit : ℕ → ℕ → ℕ → ℕ
fit zero size left = size
fit (suc fuel) size left =
    let rest = fit fuel (size / 2) left in if ltb left size then rest else size

-- `u8 order_i = log2 (size) - fo_bits;`
abbrev pub order_of : Pallocator → ℕ → ℕ
order_of p size = (log2 size + 256 - p.fo_bits) % 256

-- A free zone at `temp_s`.
unfoldable pub add_zone : Pallocator → ℕ → ℕ → Pallocator
add_zone p temp_s size =
    let order_i = order_of p size in
    record p {
      lists = at p.lists order_i (p.lists order_i ++ (temp_s ∷ []));
      zone_n = at p.zone_n temp_s size;
      free_space = add64 p.free_space size;
      max_order = if ltb p.max_order order_i then order_i else p.max_order;
    }

-- The size of the zone at `temp_s`.
unfoldable pub zone_size : Pallocator → ℕ → ℕ
zone_size p temp_s = let size = align_of temp_s in fit size size (sub64 p.end_addr temp_s)

-- The loop over the range, on fuel.
unfoldable pub fill_loop : ℕ → Pallocator → ℕ → Option Pallocator
fill_loop zero p temp_s = none
fill_loop (suc fuel) p temp_s =
    let size = zone_size p temp_s in
    let rest = fill_loop fuel (add_zone p temp_s size) (add64 temp_s size) in
    if ltb temp_s p.end_addr then rest else some p

-- `void init (usize start_addr, usize end_addr, usize first_order_size)`; `none` is the panic over a
-- range without room, or fuel that is short.
unfoldable pub init : ℕ → Pallocator → ℕ → ℕ → ℕ → Option Pallocator
init fuel p start_addr end_addr first_order_size =
    let q = set_up p start_addr end_addr first_order_size in
    if ltb q.start_addr (align_down end_addr q.first_order_size)
    then fill_loop fuel q q.start_addr
    else none
