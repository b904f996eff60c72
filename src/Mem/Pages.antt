-- ===== src/Mem/Pages.antt =====
-- src/mem/vmem.cpp and include/mem/vmem.hpp: page tables. Memory is a function from the kernel's
-- addresses to 64-bit words, and a table the address of its first word.
pub mod Entry
pub mod Walk
pub mod Translate
use cpp_os.Base.{
  ℕ, zero, suc, ◌+◌, ◌-◌, ◌*◌, ◌/◌, ◌%◌, ◌^◌, bit_and, bit_or, Bool, true, false, Option, none,
  some, List, [], ◌∷◌, ltb, leb, ◌==◌, if◌then◌else◌, add64, not64,
}
use cpp_os.Util.Misc.{get_bits}
use cpp_os.Mem.Zones.{page_size}

-- `PAGE_DATA_POS`, `PAGE_ADDR_POS`, `PAGE_FLAGS_POS`, `PAGE_LEVELS`, `PAGE_ENTRIES`,
-- `PAGE_TABLE_BITS`, and where the kernel is linked.
abbrev pub page_data_pos : ℕ
page_data_pos = 0xf80ffffffffff1ff

abbrev pub page_addr_pos : ℕ
page_addr_pos = 0x0000fffffffff000

abbrev pub page_flags_pos : ℕ
page_flags_pos = 0x80000000000001fe

abbrev pub page_levels : ℕ
page_levels = 4

abbrev pub page_entries : ℕ
page_entries = 512

abbrev pub page_table_bits : ℕ
page_table_bits = 9

abbrev pub kernel_vma : ℕ
kernel_vma = 0xffffff8000000000

-- `V_PRESENT`, `V_WRITE`, `V_USER` and `V_ALL_PERMISSIONS`
abbrev pub v_present : ℕ
v_present = 1

abbrev pub v_write : ℕ
v_write = 2

abbrev pub v_user : ℕ
v_user = 4

abbrev pub v_all_permissions : ℕ
v_all_permissions = bit_or v_write v_user

-- The words, the pages that `mem::allocz` will return, and those given to `mem::free`.
pub record Pages : Type 0 where
  pub words : ℕ → ℕ
  pub pool : List ℕ
  pub freed : List ℕ

-- `page_table[i]`
abbrev pub slot : ℕ → ℕ → ℕ
slot table i = add64 table (8 * i)

abbrev pub read : Pages → ℕ → ℕ → ℕ
read m table i = m.words (slot table i)

abbrev pub store : Pages → ℕ → ℕ → ℕ → Pages
store m table i v = record m { words = λ a. if a == slot table i then v else m.words a }

abbrev pub is_present : ℕ → Bool
is_present e = if bit_and e v_present == 0 then false else true

-- `usize page_counter_get (usize c)`
unfoldable pub page_counter_get : ℕ → ℕ
page_counter_get c = bit_or (get_bits c 52 58 * 2 ^ 3) (get_bits c 9 11)

-- The new value of `usize page_counter_add (usize &c, i16 n)`; `n` is a word, -1 is `2 ^ 64 - 1`.
unfoldable pub page_counter_add : ℕ → ℕ → ℕ
unfolding page_counter_get
page_counter_add c n =
    let temp = add64 (page_counter_get c) n in
    let temp2 = bit_and c page_data_pos in
    bit_or (bit_or (get_bits temp 3 9 * 2 ^ 52) (get_bits temp 0 2 * 2 ^ 9)) temp2

-- The entry that `usize page_set (usize *page_table, u16 i, usize n, usize flags)` writes over `old`.
unfoldable pub page_set_entry : ℕ → ℕ → ℕ → ℕ → ℕ
page_set_entry old i n flags =
    let n' = bit_and n page_addr_pos in
    let flags' = bit_and flags page_flags_pos in
    let c_value = bit_and old (not64 page_data_pos) in
    if i == 0
    then bit_or (bit_or (bit_or n' flags') c_value) v_present
    else bit_or (bit_or n' flags') v_present

unfoldable pub page_set : Pages → ℕ → ℕ → ℕ → ℕ → ℕ × Pages
page_set m table i n flags =
    (bit_and n page_addr_pos, store m table i (page_set_entry (read m table i) i n flags))

-- `usize page_unset (usize *page_table, u16 i)`
unfoldable pub page_unset : Pages → ℕ → ℕ → Pages
page_unset m table i =
    let c_value = bit_and (read m table i) (not64 page_data_pos) in
    store m table i (if i == 0 then bit_and c_value (not64 v_present) else 0)

-- `page_counter_add (page_table[0], n)`
unfoldable pub count : Pages → ℕ → ℕ → Pages
count m table n = store m table 0 (page_counter_add (read m table 0) n)

-- `(usize) mem::allocz (PAGE_SIZE)`: a page of zeros, or null.
unfoldable pub allocz_page : Pages → ℕ × Pages
allocz_page m = elim m.pool [
  | [] ↦ (0, m)
  | p ∷ ps ↦ (
    p,
    record m {
      words = λ a. if leb p a then (if ltb a (p + page_size) then 0 else m.words a) else m.words a;
      pool = ps;
    },
  )
]

-- `void *translate (usize virt_addr)`: the four levels, null where one is not present. The entries
-- are masked with PAGE_ENTRIES.
unfoldable pub next_table : ℕ → ℕ
next_table e = add64 (bit_and e page_entries) kernel_vma

unfoldable pub translate_from : Pages → ℕ → ℕ → ℕ → Option ℕ
translate_from m virt_addr zero table =
    let e = read m table (get_bits virt_addr 12 20) in
    if is_present e then some (next_table e) else none
translate_from m virt_addr (suc level) table =
    let l = page_table_bits * suc level + 12 in
    let e = read m table (get_bits virt_addr l (l + 8)) in
    let rest = translate_from m virt_addr level (next_table e) in
    if is_present e then rest else none

unfoldable pub translate : Pages → ℕ → ℕ → Option ℕ
translate m pml4_table virt_addr =
    translate_from m virt_addr 3 (add64 (bit_and pml4_table page_addr_pos) kernel_vma)
