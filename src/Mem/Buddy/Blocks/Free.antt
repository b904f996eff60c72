-- ===== src/Mem/Buddy/Blocks/Free.antt =====
-- `free` of src/mem/pmem.cpp on memory that is free or handed out.
use cpp_os.Base.{
  ℕ, zero, suc, ◌+◌, ◌-◌, ◌*◌, ◌%◌, ◌^◌, bit_xor, min, max, ◌<◌, ◌≤◌, ◌≡◌, refl, ap, sym, ◌∙◌, inl,
  inr, false, List, ◌==◌, arith, IsIn, Bool-cases, ==→eq, ==→ne, subst, add64,
}
use native.Mathlib.Nat.{pow-le-pow_right}
use cpp_os.Util.Math.Laws.{shl_int_lem}
use cpp_os.Mem.Buddy.{Pallocator, at, get_meta, get_order_size, merge_order}
use cpp_os.Mem.Buddy.Blocks.{IsSound, covers, block_size, count-le-total}
use cpp_os.Mem.Buddy.Blocks.Aligned.{pow_double, pair_lem}
use cpp_os.Mem.Buddy.Blocks.Merge.{buddy_of, buddy_free}
use cpp_os.Mem.Buddy.Blocks.Joined.{
  joined, joined_lists, joined_lists_last, merge_order_cases, joined-IsSound, joined-covers,
}
use cpp_os.Mem.Buddy.Blocks.Whole.{IsWhole, IsLaid, IsInside, live_count, free_counts}

-- The allocator with other lists, other sizes stored in the blocks and another count of bytes.
abbrev pub relisted : Pallocator → (ℕ → List ℕ) → (ℕ → ℕ) → ℕ → Pallocator
relisted p lists zone_n space = record p { lists = lists; zone_n = zone_n; free_space = space }

pub relisted-IsWhole :
    (p : Pallocator) (live : List (ℕ × ℕ)) (lists : ℕ → List ℕ) (zone_n : ℕ → ℕ) (space : ℕ)
    → IsWhole p live
    → IsSound (relisted p lists zone_n space)
    → ((x : ℕ) → covers (relisted p lists zone_n space) x ≡ covers p x)
    → IsWhole (relisted p lists zone_n space) live
unfolding get_meta
relisted-IsWhole p live lists zone_n space w s same = record {
  sound = s;
  laid = record {
    granule = w.laid.granule;
    start = w.laid.start;
    nonnull = w.laid.nonnull;
    small = w.laid.small;
    words = w.laid.words;
    top = w.laid.top;
  };
  parts = λ x. ap (λ (n : ℕ). n + live_count p.fo_bits live x) (same x) ∙ w.parts x;
  handed = w.handed;
  marked = w.marked;
}

-- The size of a block fits.
pub order_size :
    {p : Pallocator} (l : IsLaid p) (o : ℕ)
    → o ≤ p.max_order
    → (get_order_size p o ≡ block_size p o) × (o + p.fo_bits < 31)
unfolding get_order_size
order_size {p} l o le =
    (shl_int_lem (o + p.fo_bits) (omega (arith, l.small)), omega (arith, l.small))

-- A free block lies between the bounds.
pub free_bounds :
    {p : Pallocator} {live : List (ℕ × ℕ)} (w : IsWhole p live) (a o : ℕ)
    → o ≤ p.max_order
    → IsIn a (p.lists o)
    → (p.start_addr ≤ a) × (a + block_size p o ≤ p.end_addr)
free_bounds {p} {live} w a o le i =
    let (_, some_bytes) = pow_double (o + p.fo_bits) in
    let last = a + block_size p o - 1 in
    let inside : (x : ℕ) → a ≤ x → x < a + block_size p o → IsInside p x = λ x lo hi. ground (
      arith,
      w.parts x,
      free_counts p o a x le i lo hi,
      count-le-total p.fo_bits p.lists o (suc p.max_order) x (omega arith),
    ) in
    (
      (inside a (omega arith) (omega arith)).0,
      omega (arith, (inside last (omega arith) (omega arith)).1),
    )

-- The block and its buddy, once the tests of `merge_order` have let them pass, are the halves of a
-- block of the next order, and both are free.
module _ {p : Pallocator} {live : List (ℕ × ℕ)} (w : IsWhole p live) (a o : ℕ)
    (le : o ≤ p.max_order) (i : IsIn a (p.lists o)) (lo : p.start_addr ≤ buddy_of p o a)
    (hi : add64 (buddy_of p o a) (block_size p o) ≤ p.end_addr)
    (unmarked : p.alloced (get_meta p (buddy_of p o a)) ≡ false)
    (same_n : p.zone_n (min a (buddy_of p o a)) ≡ p.zone_n (max a (buddy_of p o a))) where
  halves_lem :
      (r : ℕ) × (min a (buddy_of p o a) ≡ r * 2 ^ suc (o + p.fo_bits))
      × (max a (buddy_of p o a) ≡ r * 2 ^ suc (o + p.fo_bits) + block_size p o)
      × (suc o ≤ p.max_order)
      × IsIn (r * 2 ^ suc (o + p.fo_bits)) (p.lists o)
      × IsIn (r * 2 ^ suc (o + p.fo_bits) + block_size p o) (p.lists o)
  halves_lem =
      let b = buddy_of p o a in
      let j = o + p.fo_bits in
      let (_, (q, placed), stored) = w.sound.sized o a le i in
      let (r, least, greatest, _, sides) = pair_lem a q j placed in
      let (double, some_bytes) = pow_double j in
      let (a_lo, a_hi) = free_bounds w a o le i in
      let top_size =
        pow-le-pow_right {n = 2} (omega arith) {i = j} {j = p.max_order + p.fo_bits}
          (omega arith) in
      let near : b ≤ a + block_size p o = elim sides [
        | inl (x, y) ↦ omega (arith, x, y)
        | inr (x, y) ↦ omega (arith, x, y)
      ] in
      let b_hi : b + block_size p o ≤ p.end_addr =
        omega (arith, near, hi, a_hi, w.laid.words, top_size) in
      let b_stored : p.zone_n b ≡ block_size p o = elim sides [
        | inl (x, y) ↦ cc
        | inr (x, y) ↦ cc
      ] in
      let b_free = buddy_free w a o le i (lo, omega (arith, b_hi, some_bytes)) unmarked b_stored in
      let within : suc o ≤ p.max_order = elim (Bool-cases (o == p.max_order)) [
        | inr below ↦ omega (arith, ==→ne _ _ below)
        | inl same ↦
            let whole : r * 2 ^ suc j + 2 ^ suc j ≤ p.end_addr = elim sides [
              | inl (x, y) ↦ omega (arith, x, y, double, b_hi)
              | inr (x, y) ↦ omega (arith, x, y, double, a_hi)
            ] in
            let start : p.start_addr ≤ r * 2 ^ suc j = elim sides [
              | inl (x, y) ↦ omega (arith, x, a_lo)
              | inr (x, y) ↦ omega (arith, y, lo)
            ] in
            let e : suc j ≡ suc (p.max_order + p.fo_bits) = omega (arith, ==→eq _ _ same) in
            absurd (
              omega (
                arith,
                whole,
                ap (λ (n : ℕ). r * 2 ^ n) e,
                ap (λ (n : ℕ). 2 ^ n) e,
                w.laid.top r (omega (arith, start, ap (λ (n : ℕ). r * 2 ^ n) e)),
              ))
      ] in
      let P : ℕ → Type 0 = λ c. IsIn c (p.lists o) in
      elim sides [
        | inl (x, y) ↦ (r, least, greatest, within, subst P x i, subst P y b_free)
        | inr (x, y) ↦ (r, least, greatest, within, subst P y b_free, subst P x i)
      ]

  -- Then they are joined.
  joined-IsWhole :
      let z = min a (buddy_of p o a) in
      let q = joined p o z (max a (buddy_of p o a)) in
      IsWhole q live
      × (suc o ≤ q.max_order)
      × IsIn z (q.lists (suc o))
      × (q.max_order ≡ p.max_order)
  unfolding joined
  joined-IsWhole =
      let (r, least, greatest, within, first, second) = halves_lem in
      let small = (order_size w.laid o le).1 in
      let z = r * 2 ^ suc (o + p.fo_bits) in
      rw (least, greatest)
        (
          relisted-IsWhole p live (joined_lists p o z (z + block_size p o))
              (at p.zone_n z (get_order_size p o * 2 % 2 ^ 64)) p.free_space w
              (joined-IsSound w.sound o r within small first second)
              (joined-covers w.sound o r within small first second),
          within,
          joined_lists_last p o z (z + block_size p o),
          refl,
        )

-- Merging keeps all blocks apart: it joins free blocks only, and never above the highest order.
pub merge_order-IsWhole :
    (fuel : ℕ) (p : Pallocator) (live : List (ℕ × ℕ)) (a o : ℕ)
    → IsWhole p live
    → o ≤ p.max_order
    → IsIn a (p.lists o)
    → p.max_order < fuel + o
    → IsWhole (merge_order fuel p a o) live
merge_order-IsWhole zero p live a o w le i h = absurd (omega arith)
merge_order-IsWhole (suc fuel) p live a o w le i h = elim (merge_order_cases fuel p a o) [
  | inl stops ↦ subst (λ q. IsWhole q live) (sym stops) w
  | inr (lo, hi, unmarked, same_n, goes_on) ↦
      let b = bit_xor a (get_order_size p o) in
      let (size, _) = order_size w.laid o le in
      let q = joined p o (min a (buddy_of p o a)) (max a (buddy_of p o a)) in
      let next : o + 1 ≡ suc o = omega arith in
      let (wq, within, iq, m) =
        joined-IsWhole w a o le i (subst (λ s. p.start_addr ≤ bit_xor a s) size lo)
          (subst (λ s. add64 (bit_xor a s) s ≤ p.end_addr) size hi)
          (subst (λ s. p.alloced (get_meta p (bit_xor a s)) ≡ false) size unmarked)
          (subst (λ s. p.zone_n (min a (bit_xor a s)) ≡ p.zone_n (max a (bit_xor a s))) size
            same_n) in
      let goes_on' : merge_order (suc fuel) p a o
          ≡ merge_order fuel q (min a (buddy_of p o a)) (suc o) =
        subst
          (λ s.
            merge_order (suc fuel) p a o
            ≡ merge_order fuel (joined p o (min a (bit_xor a s)) (max a (bit_xor a s)))
                (min a (bit_xor a s)) (o + 1))
          size goes_on
        ∙ ap (λ (n : ℕ). merge_order fuel q (min a (buddy_of p o a)) n) next in
      subst (λ q'. IsWhole q' live) (sym goes_on')
        (merge_order-IsWhole fuel q live (min a (buddy_of p o a)) (suc o) wq within iq
          (omega (arith, m)))
]
