-- ===== src/Mem/Buddy/Init/Filled.antt =====
-- What `pallocator::init` makes of a range.
use cpp_os.Base.{
  ℕ, zero, suc, ◌+◌, ◌-◌, ◌/◌, ◌^◌, ◌<◌, ◌≤◌, ◌≡◌, refl, subst, inl, inr, true, false, some, [],
  ◌∷◌, ltb, ◌==◌, sub64, add64, max, arith, IsIn, IsIn-append_left, IsIn-append_last, Bool-cases,
  ==→eq, ==_refl, ltb→lt, ltb→ge,
}
use cpp_os.Util.Misc.{align_down, align_of}
use cpp_os.Util.Misc.Odd.{align_of-positive}
use cpp_os.Mem.Zones.{page_size}
use cpp_os.Mem.Buddy.{Pallocator}
use cpp_os.Mem.Buddy.Init.{set_up, fit, order_of, add_zone, zone_size, fill_loop, init}

-- The halving ends with a size that fits and is not 0.
fit_lem :
    (fuel size left : ℕ)
    → size ≤ fuel
    → 0 < size
    → 0 < left
    → (0 < fit fuel size left) × (fit fuel size left ≤ left)
unfolding fit
fit_lem zero size left h p l = absurd (omega arith)
fit_lem (suc fuel) size left h p l = elim (Bool-cases (ltb left size)) [
  | inl more ↦
      let big = ltb→lt _ _ more in
      rw more (fit_lem fuel (size / 2) left (omega arith) (omega arith) l)
  | inr done ↦ rw done (p, ltb→ge _ _ done)
]

zone_size_lem :
    (p : Pallocator) (s : ℕ)
    → 2 ^ 63 < s
    → s < p.end_addr
    → p.end_addr < 2 ^ 64
    → (0 < zone_size p s) × (zone_size p s + s ≤ p.end_addr)
unfolding zone_size
zone_size_lem p s lo hi w =
    let positive = align_of-positive s lo (omega arith) in
    let left : sub64 p.end_addr s ≡ p.end_addr - s = omega arith in
    let (a, b) =
      fit_lem (align_of s) (align_of s) (p.end_addr - s) (omega arith) positive (omega arith) in
    rw left (a, omega (arith, b))

-- Every address of a range lies in a free zone.
abbrev pub Covered : Pallocator → ℕ → ℕ → Type 0
Covered p a b =
    (x : ℕ)
    → a ≤ x
    → x < b
    → (o : ℕ) × (z : ℕ) × IsIn z (p.lists o) × (z ≤ x) × (x < z + p.zone_n z)

-- A zone in a list stays there when another is added.
add_zone-keeps :
    (p : Pallocator) (s size o z : ℕ) → IsIn z (p.lists o) → IsIn z ((add_zone p s size).lists o)
unfolding add_zone
add_zone-keeps p s size o z i = elim (Bool-cases (o == order_of p size)) [
  | inl same ↦ rw same (
      IsIn-append_left z (p.lists (order_of p size)) (s ∷ [])
        (subst (λ k. IsIn z (p.lists k)) (==→eq _ _ same) i))
  | inr other ↦ rw other i
]

add_zone-has :
    (p : Pallocator) (s size : ℕ)
    → IsIn s ((add_zone p s size).lists (order_of p size)) × ((add_zone p s size).zone_n s ≡ size)
unfolding add_zone
add_zone-has p s size = (
  rw (==_refl (order_of p size)) (IsIn-append_last s (p.lists (order_of p size))),
  rw (==_refl s) refl,
)

add_zone-Covered :
    (p : Pallocator) (a s size : ℕ) → Covered p a s → Covered (add_zone p s size) a (s + size)
unfolding add_zone
add_zone-Covered p a s size c x l r = elim (Bool-cases (ltb x s)) [
  | inl old ↦
      let (o, z, i, le, lt) = c x l (ltb→lt _ _ old) in
      let other : (z == s) ≡ false = ground (arith, ltb→lt _ _ old) in
      (o, z, add_zone-keeps p s size o z i, le, rw other lt)
  | inr new ↦ (order_of p size, s, (add_zone-has p s size).0, ltb→ge _ _ new, rw (==_refl s) r)
]

fill_loop-Covered :
    (fuel : ℕ) (p : Pallocator) (a s : ℕ)
    → 2 ^ 63 < s
    → s ≤ p.end_addr
    → p.end_addr < 2 ^ 64
    → p.end_addr - s < fuel
    → p.free_space + (p.end_addr - s) < 2 ^ 64
    → Covered p a s
    → (p' : Pallocator) × (fill_loop fuel p s ≡ some p')
      × Covered p' a p.end_addr
      × (p'.free_space ≡ p.free_space + (p.end_addr - s))
unfolding fill_loop add_zone
fill_loop-Covered zero p a s lo hi w f fs c = absurd (omega arith)
fill_loop-Covered (suc fuel) p a s lo hi w f fs c = elim (Bool-cases (ltb s p.end_addr)) [
  | inr done ↦
      let e : s ≡ p.end_addr = omega (arith, ltb→ge _ _ done) in
      rw done (p, refl, subst (λ b. Covered p a b) e c, omega arith)
  | inl more ↦
      let below = ltb→lt _ _ more in
      let size = zone_size p s in
      let (some_bytes, fits) = zone_size_lem p s lo below w in
      let no_wrap : add64 s size ≡ s + size = omega arith in
      let counted : add64 p.free_space size ≡ p.free_space + size = omega arith in
      let (p', done, all, total) =
        fill_loop-Covered fuel (add_zone p s size) a (s + size) (omega arith) (omega arith) w
          (omega arith) (omega (arith, counted)) (add_zone-Covered p a s size c) in
      rw (more, no_wrap) (p', done, all, omega (arith, total, counted))
]

-- `init` returns, for enough rounds: every byte between the bounds that it sets lies in a free zone of
-- some order, and the counter of free bytes is their number. The range has room for a first-order
-- block and lies in the upper half of the addresses, where the kernel maps memory.
pub init-Covered :
    (fuel : ℕ) (p : Pallocator) (start_addr end_addr first_order_size : ℕ)
    → let q = set_up p start_addr end_addr first_order_size in
      2 ^ 63 < q.start_addr
      → q.start_addr < align_down end_addr (max first_order_size page_size)
      → q.start_addr ≤ q.end_addr
      → q.end_addr < 2 ^ 64
      → q.end_addr - q.start_addr < fuel
      → (p' : Pallocator) × (init fuel p start_addr end_addr first_order_size ≡ some p')
        × Covered p' q.start_addr q.end_addr
        × (p'.free_space ≡ q.end_addr - q.start_addr)
unfolding init set_up
init-Covered fuel p start_addr end_addr first_order_size lo room le w f =
    let q = set_up p start_addr end_addr first_order_size in
    let fits : ltb q.start_addr (align_down end_addr q.first_order_size) ≡ true =
      ground (arith, room) in
    let (p', done, all, total) =
      fill_loop-Covered fuel q q.start_addr q.start_addr lo le w f (omega arith)
        (λ x l r. absurd (omega arith)) in
    rw fits (p', done, all, omega (arith, total))
