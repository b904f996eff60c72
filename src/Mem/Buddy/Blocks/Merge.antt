-- ===== src/Mem/Buddy/Blocks/Merge.antt =====
-- The blocks that `merge_order` of src/mem/pmem.cpp merges.
use cpp_os.Base.{
  ℕ, suc, ◌+◌, ◌-◌, ◌*◌, ◌^◌, bit_xor, ◌<◌, ◌≤◌, ◌≡◌, ap, sym, ◌∙◌, inl, inr, false, List, ltb,
  arith, IsIn, Bool-cases, subst, ltb→lt, ltb→ge,
}
use cpp_os.Mem.Buddy.{Pallocator, get_meta}
use cpp_os.Mem.Buddy.Blocks.{count, covers, block_size, count-le-total}
use cpp_os.Mem.Buddy.Blocks.Aligned.{aligned_start, holds_pair, pair_lem, pow_double, larger_power}
use cpp_os.Mem.Buddy.Blocks.Whole.{
  IsWhole, IsInside, live_count, found_free, found-IsLive, free_counts, live_counts, count_twice,
}

abbrev pub buddy_of : Pallocator → ℕ → ℕ → ℕ
buddy_of p o a = bit_xor a (block_size p o)

-- A free block of an allocator.
module _ {p : Pallocator} {live : List (ℕ × ℕ)} (w : IsWhole p live) (a o : ℕ)
    (le : o ≤ p.max_order) (free : IsIn a (p.lists o)) where
  free_once :
      (c x : ℕ)
      → o < c
      → c ≤ p.max_order
      → a ≤ x
      → x < a + block_size p o
      → count (block_size p c) (p.lists c) x ≡ 0
  free_once c x lt hc lo hi = omega (
    arith,
    free_counts p o a x le free lo hi,
    count_twice p.fo_bits p.lists o c (suc p.max_order) x lt (omega arith),
    w.sound.apart x,
  )

  -- A block that holds the buddy, whose order is that of the block at most, starts at the buddy.
  smaller_starts :
      (c z : ℕ)
      → c ≤ o
      → ((q : ℕ) × (z ≡ q * block_size p c))
      → z ≤ buddy_of p o a
      → buddy_of p o a < z + block_size p c
      → z ≡ buddy_of p o a
  smaller_starts c z hc (q, aligned) lo hi =
      let (positive, (t, placed), stored) = w.sound.sized o a le free in
      let (r, _, _, (u, at), _) = pair_lem a t (o + p.fo_bits) placed in
      let e : o + p.fo_bits ≡ (o - c) + (c + p.fo_bits) = omega arith in
      let at' : buddy_of p o a ≡ u * 2 ^ ((o - c) + (c + p.fo_bits)) =
        at ∙ ap (λ (n : ℕ). u * 2 ^ n) e in
      aligned
      ∙ aligned_start (c + p.fo_bits) (o - c) u q (omega (arith, at', aligned))
          (omega (arith, at', aligned))
      ∙ sym at'

  -- A larger one holds the block too.
  larger_holds :
      (c z : ℕ)
      → o < c
      → ((q : ℕ) × (z ≡ q * block_size p c))
      → z ≤ buddy_of p o a
      → buddy_of p o a < z + block_size p c
      → (z ≤ a) × (a < z + block_size p c)
  larger_holds c z hc (q, aligned) lo hi =
      let j = o + p.fo_bits in
      let (positive, (t, placed), stored) = w.sound.sized o a le free in
      let (r, _, _, _, sides) = pair_lem a t j placed in
      let (double, some_bytes) = pow_double j in
      let e : c + p.fo_bits ≡ (c - suc o) + suc j = omega arith in
      let z' : z ≡ q * 2 ^ ((c - suc o) + suc j) = aligned ∙ ap (λ (n : ℕ). q * 2 ^ n) e in
      let size : block_size p c ≡ 2 ^ ((c - suc o) + suc j) = ap (λ (n : ℕ). 2 ^ n) e in
      elim sides [
        | inl (x, y) ↦
            let (lower, upper) =
              holds_pair j (c - suc o) q r (buddy_of p o a) (omega (arith, z'))
                (omega (arith, z', size)) (omega (arith, y)) (omega (arith, y, double)) in
            (omega (arith, z', lower, x), omega (arith, z', size, upper, x, double))
        | inr (x, y) ↦
            let (lower, upper) =
              holds_pair j (c - suc o) q r (buddy_of p o a) (omega (arith, z'))
                (omega (arith, z', size)) (omega (arith, y)) (omega (arith, y, double)) in
            (omega (arith, z', lower, x), omega (arith, z', size, upper, x, double))
      ]

  -- The tests of `merge_order` find a buddy that is free: one that is not marked, and whose first
  -- word is the size.
  pub buddy_free :
      IsInside p (buddy_of p o a)
      → p.alloced (get_meta p (buddy_of p o a)) ≡ false
      → p.zone_n (buddy_of p o a) ≡ block_size p o
      → IsIn (buddy_of p o a) (p.lists o)
  buddy_free (lo, hi) unmarked stored = elim (Bool-cases (ltb 0 (covers p (buddy_of p o a)))) [
    | inl some_free ↦
        let (c, z, hc, i, lower, upper) =
          found_free p.fo_bits p.lists (suc p.max_order) (buddy_of p o a) (ltb→lt _ _ some_free) in
        let (_, aligned, stored') = w.sound.sized c z (omega (arith, hc)) i in
        elim (Bool-cases (ltb o c)) [
          | inl larger ↦
              let (x, y) = larger_holds c z (ltb→lt _ _ larger) aligned lower upper in
              absurd (
                omega (
                  arith,
                  free_once c a (ltb→lt _ _ larger) (omega (arith, hc)) (omega arith)
                      (omega (arith, (pow_double (o + p.fo_bits)).1)),
                  free_counts p c z a (omega (arith, hc)) i x y,
                ))
          | inr at_most ↦
              let start = smaller_starts c z (ltb→ge _ _ at_most) aligned lower upper in
              let same_size : block_size p c ≡ block_size p o =
                sym stored' ∙ ap p.zone_n start ∙ stored in
              elim (Bool-cases (ltb c o)) [
                | inl less ↦ absurd (
                    omega (
                      arith,
                      same_size,
                      larger_power (c + p.fo_bits) (o + p.fo_bits) (omega (arith, ltb→lt _ _ less)),
                    ))
                | inr same ↦
                    let e : c ≡ o = omega (arith, ltb→ge _ _ same, ltb→ge _ _ at_most) in
                    subst (λ b. IsIn b (p.lists o)) start (subst (λ k. IsIn z (p.lists k)) e i)
              ]
        ]
    | inr no_free ↦
        let taken : 1 ≤ live_count p.fo_bits live (buddy_of p o a) =
          ground (arith, w.parts (buddy_of p o a), ltb→ge _ _ no_free) in
        let (c, z, i, lower, upper) = found-IsLive p.fo_bits live (buddy_of p o a) taken in
        let (hc, aligned, marked, _) = w.handed z c i in
        elim (Bool-cases (ltb o c)) [
          | inl larger ↦
              let (x, y) = larger_holds c z (ltb→lt _ _ larger) aligned lower upper in
              absurd (
                ground (
                  arith,
                  w.parts a,
                  live_counts p.fo_bits live z c a i x y,
                  free_counts p o a a le free (omega arith)
                      (omega (arith, (pow_double (o + p.fo_bits)).1)),
                  count-le-total p.fo_bits p.lists o (suc p.max_order) a (omega arith),
                ))
          | inr at_most ↦
              let start = smaller_starts c z (ltb→ge _ _ at_most) aligned lower upper in
              cc (ap (λ (b : ℕ). p.alloced (get_meta p b)) start)
        ]
  ]
