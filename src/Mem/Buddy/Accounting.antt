-- ===== src/Mem/Buddy/Accounting.antt =====
-- `free_space` of src/mem/pmem.cpp.
use cpp_os.Base.{
  ℕ, zero, suc, ◌+◌, ◌-◌, ◌≡◌, ◌≢◌, ◌∙◌, false, ◌||◌, ltb, leb, ◌==◌, refl, Bool-cases, inl, inr,
  sub64, add64, bit_xor, min, max,
}
use cpp_os.Mem.Buddy.{
  Pallocator, free, merge_order, oalloc, get_order_size, is_empty, last_zone, get_meta,
}

merge_order-free_space :
    (fuel : ℕ) (p : Pallocator) (addr order : ℕ)
    → (merge_order fuel p addr order).free_space ≡ p.free_space
unfolding merge_order
merge_order-free_space zero p addr order = refl
merge_order-free_space (suc fuel) p addr order =
    let order_s = get_order_size p order in
    let m = bit_xor addr order_s in
    elim (Bool-cases (ltb m p.start_addr || ltb p.end_addr (add64 m order_s))) [
      | inl out ↦ rw (out) refl
      | inr inside ↦ elim (Bool-cases (p.alloced (get_meta p m))) [
        | inl taken ↦ rw (inside, taken) refl
        | inr is_free ↦ elim (Bool-cases (p.zone_n (min addr m) == p.zone_n (max addr m))) [
          | inr other ↦ rw (inside, is_free, other) refl
          | inl same ↦
              rw (inside, is_free, same) (merge_order-free_space fuel _ (min addr m) (order + 1))
        ]
      ]
    ]

oalloc-free_space :
    (p : Pallocator) (order : ℕ)
    → is_empty (p.lists order) ≡ false
    → (oalloc p order).0 ≢ 0
    → (oalloc p order).1.free_space ≡ sub64 p.free_space (get_order_size p order)
unfolding oalloc
oalloc-free_space p order here got = elim (Bool-cases (ltb p.max_order order)) [
  | inl above ↦ absurd (got (rw (above) refl))
  | inr within ↦ elim (Bool-cases (last_zone (p.lists order) == 0)) [
    | inl null ↦ absurd (got (rw (within, here, null) refl))
    | inr zone ↦ rw (within, here, zone) refl
  ]
]

free-free_space : (p : Pallocator) (mem : ℕ) → (free p mem).free_space ≡ p.free_space
unfolding free
free-free_space p mem = elim (Bool-cases (ltb mem p.start_addr || leb p.end_addr mem)) [
  | inl out ↦ rw (out) refl
  | inr inside ↦ elim (Bool-cases (p.alloced (get_meta p mem))) [
    | inr is_free ↦ rw (inside, is_free) refl
    | inl taken ↦
        rw (inside, taken)
          (merge_order-free_space (p.max_order + 1 - p.order (get_meta p mem)) _ _
            (p.order (get_meta p mem)))
  ]
]

-- Freeing memory never gives back its share of `free_space`: an allocation from a list that holds
-- a zone of its order takes the size of the block from that counter, and freeing any address
-- afterwards, the block's own included, leaves the counter where the allocation put it.
pub free-oalloc-free_space :
    (p : Pallocator) (order mem : ℕ)
    → is_empty (p.lists order) ≡ false
    → (oalloc p order).0 ≢ 0
    → (free (oalloc p order).1 mem).free_space ≡ sub64 p.free_space (get_order_size p order)
free-oalloc-free_space p order mem here got =
    free-free_space (oalloc p order).1 mem ∙ oalloc-free_space p order here got
