-- ===== src/Mem/Pages/Walk.antt =====
-- src/mem/vmem.cpp: mapping and unmapping through the levels of the tables.
pub mod Ends
use cpp_os.Base.{
  ℕ, zero, suc, ◌+◌, ◌-◌, ◌*◌, ◌/◌, ◌%◌, ◌^◌, bit_and, Bool, true, false, Option, none, some, ◌∷◌,
  ltb, leb, ◌==◌, if◌then◌else◌, add64, sub64,
}
use mathlib.Core.Option
use cpp_os.Util.Misc.{get_bits, align_up}
use cpp_os.Mem.Zones.{page_size}
use cpp_os.Mem.Pages.{
  Pages, read, page_set, page_unset, count, allocz_page, page_counter_get, page_addr_pos,
  page_levels, page_entries, page_table_bits, kernel_vma, v_all_permissions, is_present,
}

-- The two references that the recursion passes down, `virt_addr` and `page_n`.
pub record Walk : Type 0 where
  pub pages : Pages
  pub virt_addr : ℕ
  pub page_n : ℕ

-- The index that a call starts at, and the address it passes on.
abbrev pub entry_of : ℕ → ℕ
entry_of virt_addr = get_bits virt_addr 39 47

abbrev pub shift_left : Walk → ℕ → Walk
shift_left w n = record w { virt_addr = w.virt_addr * 2 ^ n % 2 ^ 64 }

-- The table below an entry: the one it names, or a new one, of zeros, which is counted. `none` is
-- memory that is short.
unfoldable pub lower_table : Pages → ℕ → ℕ → Option (ℕ × Pages)
lower_table m table i =
    let e = read m table i in
    let (temp, m₁) = allocz_page m in
    let (p, m₂) = page_set m₁ table i (sub64 temp kernel_vma) v_all_permissions in
    if is_present e
    then some (add64 (bit_and e page_addr_pos) kernel_vma, m)
    else if temp == 0
    then none
    else some (add64 p kernel_vma, count m₂ table 1)

-- With no table below, the walk has failed.
unfoldable pub descend :
    Option (ℕ × Pages) → Walk → (ℕ → Pages → Option (Bool × Walk)) → Option (Bool × Walk)
descend none w k = some (false, w)
descend (some (below, m)) w k = k below m

-- A walk one level down that has failed fails the one above.
unfoldable pub proceed : Option (Bool × Walk) → (Walk → Option (Bool × Walk)) → Option (Bool × Walk)
proceed none k = none
proceed (some (false, w)) k = some (false, w)
proceed (some (true, w)) k = k w

unfoldable pub with_result :
    Option (Bool × Walk) → (Bool → Walk → Option (Bool × Walk)) → Option (Bool × Walk)
with_result none k = none
with_result (some (b, w)) k = k b w

module _ (phys_addr start_page_n flags : ℕ) where
  -- One entry at the lowest level.
  unfoldable pub map_page : Walk → ℕ → ℕ → Walk
  map_page w table i =
      let m = w.pages in
      let m₁ = (if is_present (read m table i) then m else count m table 1) in
      let (_, m₂) =
        page_set m₁ table i
          (sub64 (add64 phys_addr (page_size * (start_page_n - w.page_n))) kernel_vma) flags in
      record w { pages = m₂; page_n = w.page_n - 1 }

  -- The loop of `map_internal_recurse` at level `level` from entry `i` on, where a call starts a loop
  -- of its own one level down. The fuel is the entries that are left and one more, so `none` is fuel
  -- that is short, which `Ends` rules out.
  unfoldable pub map_loop : ℕ → ℕ → Walk → ℕ → ℕ → Option (Bool × Walk)
  map_loop level zero w table i = none
  map_loop zero (suc fuel) w table i =
      let rest = map_loop zero fuel (map_page w table i) table (i + 1) in
      if w.page_n == 0 then some (true, w) else if leb page_entries i then some (true, w) else rest
  map_loop (suc level) (suc fuel) w table i =
      if w.page_n == 0
      then some (true, w)
      else if leb page_entries i
      then some (ltb (suc level) (page_levels - 1), w)
      else descend (lower_table w.pages table i) w λ below m.
        proceed
          (map_loop level (suc page_entries) (shift_left (record w { pages = m }) page_table_bits)
            below (entry_of w.virt_addr))
          λ w'. map_loop (suc level) fuel w' table (i + 1)

-- The part of a round of `unmap_internal_recurse` behind the entry: where the counter that is read in
-- the entry itself is 0, the rest of the table is passed over and the table is to be freed.
unfoldable pub free_rest : Walk → ℕ → Walk
free_rest w i =
    let page_n_sub = page_entries - i - 1 in
    record w { page_n = if leb w.page_n page_n_sub then 0 else w.page_n - page_n_sub }

-- One entry at the lowest level.
unfoldable pub unmap_page : Walk → ℕ → ℕ → Walk
unmap_page w table i =
    let m = w.pages in
    let m₁ = (if is_present (read m table i) then count m table (2 ^ 64 - 1) else m) in
    record w { pages = page_unset m₁ table i; page_n = w.page_n - 1 }

-- An entry of a higher level that is not present: its pages are passed over.
unfoldable pub pass_over : Walk → ℕ → Walk
pass_over w level =
    let page_n_sub = 2 ^ (page_table_bits * level) in
    shift_left (record w { page_n = if leb w.page_n page_n_sub then 0 else w.page_n - page_n_sub })
      (page_table_bits * level)

-- The table below an entry was emptied: it is freed.
unfoldable pub free_table : Walk → ℕ → ℕ → Walk
free_table w table i =
    let m = w.pages in
    let below = add64 (bit_and (read m table i) page_addr_pos) kernel_vma in
    record w { pages = count (record m { freed = below ∷ m.freed }) table (2 ^ 64 - 1) }

-- The loop of `unmap_internal_recurse`; the result says whether the table is to be freed.
unfoldable pub unmap_loop : ℕ → ℕ → Walk → ℕ → ℕ → Option (Bool × Walk)
unmap_loop level zero w table i = none
unmap_loop zero (suc fuel) w table i =
    let w' = unmap_page w table i in
    let rest = unmap_loop zero fuel w' table (i + 1) in
    if w.page_n == 0
    then some (false, w)
    else if leb page_entries i
    then some (false, w)
    else if page_counter_get (read w'.pages table i) == 0
    then some (true, free_rest w' i)
    else rest
unmap_loop (suc level) (suc fuel) w table i =
    let e = read w.pages table i in
    let below = add64 (bit_and page_addr_pos e) kernel_vma in
    let inner =
      unmap_loop level (suc page_entries) (shift_left w page_table_bits) below
        (entry_of w.virt_addr) in
    let w₁ = pass_over w (suc level) in
    let passed = unmap_loop (suc level) fuel w₁ table (i + 1) in
    if w.page_n == 0
    then some (false, w)
    else if leb page_entries i
    then some (false, w)
    else if is_present e
    then with_result inner (λ emptied w'.
      let w₂ = (if emptied then free_table w' table i else w') in
      let rest = unmap_loop (suc level) fuel w₂ table (i + 1) in
      if page_counter_get (read w₂.pages table i) == 0 then some (true, free_rest w₂ i) else rest)
    else if page_counter_get e == 0
    then some (true, free_rest w₁ i)
    else passed

-- `void unmap_internal (usize virt_addr, usize n)`, from the table of the address space.
unfoldable pub unmap_internal : Pages → ℕ → ℕ → ℕ → Option Pages
unmap_internal m pml4_table virt_addr n =
    let w : Walk = record {
      pages = m;
      virt_addr = bit_and virt_addr page_addr_pos;
      page_n = align_up n page_size / page_size;
    } in
    Option.map (λ (r : Bool × Walk). r.1.pages)
      (unmap_loop (page_levels - 1) (suc page_entries) (shift_left w page_table_bits) pml4_table
        (entry_of w.virt_addr))

-- What `map_internal` does of the walk's result: a mapping that failed is undone.
unfoldable pub undo : ℕ → Option (Bool × Walk) → Option (Bool × Pages)
undo pml4_table none = none
undo pml4_table (some (true, w)) = some (true, w.pages)
undo pml4_table (some (false, w)) =
    Option.map (λ (m : Pages). (false, m)) (unmap_internal w.pages pml4_table w.virt_addr w.page_n)

-- `bool map_internal (usize phys_addr, usize virt_addr, usize n, usize flags)`. The recursion has
-- both `virt_addr` and `n` by reference; on failure the shifted address and the number of pages that
-- are left go to `unmap_internal`, which takes bytes.
unfoldable pub map_internal : Pages → ℕ → ℕ → ℕ → ℕ → ℕ → Option (Bool × Pages)
map_internal m pml4_table phys_addr virt_addr n flags =
    let pages_n = align_up n page_size / page_size in
    let w : Walk = record {
      pages = m;
      virt_addr = bit_and virt_addr page_addr_pos;
      page_n = pages_n;
    } in
    undo pml4_table (
      map_loop phys_addr pages_n flags (page_levels - 1) (suc page_entries)
        (shift_left w page_table_bits) pml4_table (entry_of w.virt_addr))
