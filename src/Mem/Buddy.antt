-- ===== src/Mem/Buddy.antt =====
-- The buddy allocator, src/mem/pmem.cpp and include/mem/pmem.hpp. The list of an order is the
-- sequence of its zones' addresses, as src/util/linked_list.cpp keeps it; the field `n` of a zone
-- and the metadata of a first-order block are functions on addresses.
pub mod Populate
pub mod Accounting
pub mod Init
pub mod Blocks
pub mod Resize
use cpp_os.Base.{
  ℕ, zero, suc, ◌+◌, ◌-◌, ◌*◌, ◌/◌, ◌%◌, ◌^◌, bit_xor, min, max, Bool, true, false, ◌&&◌, ◌||◌, not,
  Option, none, some, List, [], ◌∷◌, ◌++◌, ltb, leb, ◌==◌, if◌then◌else◌, sub64, add64,
}
use cpp_os.Util.Misc.{align_down}
use cpp_os.Util.Math.{log2_up, shl_int}

-- `class pallocator`, with the memory that it manages: `zone_n` is `free_zone::n`, `alloced` and
-- `order` are the two fields of `metadata`.
pub record Pallocator : Type 0 where
  pub lists : ℕ → List ℕ
  pub zone_n : ℕ → ℕ
  pub alloced : ℕ → Bool
  pub order : ℕ → ℕ
  pub start_addr : ℕ
  pub end_addr : ℕ
  pub first_order_size : ℕ
  pub free_space : ℕ
  pub fo_bits : ℕ
  pub max_order : ℕ

-- A function changed at one place.
abbrev pub at {ℓ} : {A : Type ℓ} → (ℕ → A) → ℕ → A → ℕ → A
at f a v b = if b == a then v else f b

-- `usize get_order_size (u8 order)`
unfoldable pub get_order_size : Pallocator → ℕ → ℕ
get_order_size p order = shl_int (order + p.fo_bits)

-- `u8 get_order (usize n)`
unfoldable pub get_order : Pallocator → ℕ → ℕ
get_order p n = let temp = log2_up n in if leb p.fo_bits temp then temp - p.fo_bits else 0

-- `metadata *get_meta (usize addr)`: the index of the block.
unfoldable pub get_meta : Pallocator → ℕ → ℕ
get_meta p addr = (addr - p.start_addr) / p.first_order_size

-- The last node of a list and the nodes in front of it; the null pointer of an empty list.
abbrev pub last_zone : List ℕ → ℕ
last_zone [] = 0
last_zone (z ∷ []) = z
last_zone (z ∷ w ∷ s) = last_zone (w ∷ s)

abbrev pub without_last : List ℕ → List ℕ
without_last [] = []
without_last (z ∷ []) = []
without_last (z ∷ w ∷ s) = z ∷ without_last (w ∷ s)

abbrev pub is_empty : List ℕ → Bool
is_empty [] = true
is_empty (z ∷ s) = false

-- `lists[order].remove_p (zone)`
abbrev pub remove_zone : ℕ → List ℕ → List ℕ
remove_zone z [] = []
remove_zone z (w ∷ s) = if w == z then s else w ∷ remove_zone z s

-- The body of `populate_order` behind its tests: a zone of `order` is split in two.
unfoldable pub split_zone : Pallocator → ℕ → Pallocator
split_zone p order =
    let zone = last_zone (p.lists order) in
    let n = p.zone_n zone / 2 in
    let zone2 = bit_xor zone n in
    let popped = at p.lists order (without_last (p.lists order)) in
    record p {
      zone_n = at (at p.zone_n zone n) zone2 n;
      lists = at popped (order - 1) (popped (order - 1) ++ (zone ∷ zone2 ∷ []));
    }

-- `bool populate_order (u8 order)`, on fuel; without fuel the order is above `max_order`.
unfoldable pub populate_order : ℕ → Pallocator → ℕ → Bool × Pallocator
populate_order zero p order = (false, p)
populate_order (suc fuel) p order =
    let (ok, p') = populate_order fuel p (order + 1) in
    if ltb p.max_order order
    then (false, p)
    else if not (is_empty (p.lists order))
    then (true, split_zone p order)
    else if ok
    then (true, split_zone p' order)
    else (false, p')

-- `void *oalloc (u8 order)`: the address, or null.
unfoldable pub oalloc : Pallocator → ℕ → ℕ × Pallocator
oalloc p order =
    let p₁ =
      (if is_empty (p.lists order)
        then (populate_order (p.max_order + 1 - order) p (order + 1)).1
        else p) in
    let out = last_zone (p₁.lists order) in
    let meta = get_meta p₁ out in
    let popped = record p₁ { lists = at p₁.lists order (without_last (p₁.lists order)) } in
    if ltb p.max_order order then (0, p) else if out == 0 then (0, popped) else (
      out,
      record popped {
        alloced = at p₁.alloced meta true;
        order = at p₁.order meta order;
        free_space = sub64 p₁.free_space (get_order_size p₁ order);
      },
    )

-- `void *alloc (usize n)`
unfoldable pub alloc : Pallocator → ℕ → ℕ × Pallocator
alloc p n = if n == 0 then (0, p) else oalloc p (get_order p n)

-- `void merge_order (usize addr, u8 order, u8 m_order)`, on fuel for the orders up to `m_order`.
unfoldable pub merge_order : ℕ → Pallocator → ℕ → ℕ → Pallocator
merge_order zero p addr order = p
merge_order (suc fuel) p addr order =
    let order_s = get_order_size p order in
    let m = bit_xor addr order_s in
    let z_first = min addr m in
    let z_second = max addr m in
    let left = remove_zone z_second (remove_zone z_first (p.lists order)) in
    let taken = at p.lists order left in
    let merged = record p {
      zone_n = at p.zone_n z_first (order_s * 2 % 2 ^ 64);
      lists = at taken (order + 1) (taken (order + 1) ++ (z_first ∷ []));
    } in
    let rest = merge_order fuel merged z_first (order + 1) in
    if ltb m p.start_addr || ltb p.end_addr (add64 m order_s)
    then p
    else if p.alloced (get_meta p m)
    then p
    else if not (p.zone_n z_first == p.zone_n z_second)
    then p
    else rest

-- `void free (void *mem)`
unfoldable pub free : Pallocator → ℕ → Pallocator
free p mem =
    let meta = get_meta p mem in
    let order = p.order meta in
    let size = get_order_size p order in
    let m = align_down mem size in
    let freed = record p {
      alloced = at p.alloced meta false;
      zone_n = at p.zone_n m size;
      lists = at p.lists order (p.lists order ++ (m ∷ []));
    } in
    if ltb mem p.start_addr || leb p.end_addr mem
    then p
    else if not (p.alloced meta)
    then p
    else merge_order (p.max_order + 1 - order) freed m order

-- The loop of `get_space`, on fuel.
unfoldable pub space_loop : ℕ → Pallocator → ℕ → ℕ → Option ℕ
space_loop zero p addr out = none
space_loop (suc fuel) p addr out =
    let len = get_order_size p (p.order (get_meta p addr)) in
    let rest = space_loop fuel p (add64 addr len) (add64 out len) in
    if p.alloced (get_meta p addr)
    then some out
    else if leb p.end_addr (add64 addr len)
    then some (add64 out len)
    else rest

-- `usize get_space (usize addr)`, on fuel.
unfoldable pub get_space : ℕ → Pallocator → ℕ → Option ℕ
get_space fuel p addr =
    if ltb addr p.start_addr || leb p.end_addr addr then some 0 else space_loop fuel p addr 0
