-- ===== src/Mem/Buddy/Blocks/Started.antt =====
-- The loop of `pallocator::init` of src/mem/pmem.cpp, which cuts a range into free blocks.
use cpp_os.Base.{
  ℕ, zero, suc, ◌+◌, ◌-◌, ◌*◌, ◌^◌, ◌<◌, ◌≤◌, ◌≡◌, refl, ap, sym, ◌∙◌, inl, inr, false, ◌&&◌, some,
  List, [], ◌∷◌, ◌++◌, ltb, leb, ◌==◌, if◌then◌else◌, add64, arith, IsIn, Bool-cases, ==→eq, ltb→lt,
  ltb→ge, subst, ==_refl, ne→==,
}
use cpp_os.Base.Bits.{two_pow_add}
use cpp_os.Util.Math.Laws.{log2_two_pow}
use cpp_os.Mem.Buddy.{Pallocator, at}
use cpp_os.Mem.Buddy.Init.{order_of, add_zone, fill_loop}
use cpp_os.Mem.Buddy.Blocks.{
  holds, count, total, covers, block_size, count-append, total-at, IsIn-append_cases,
}
use cpp_os.Mem.Buddy.Blocks.Aligned.{pow_double, aligned_start}
use cpp_os.Mem.Buddy.Blocks.Fitted.{zone_size_power, power_lt}

-- The allocator when the loop stands at `s`: the blocks make up the range in front of it, and the highest
-- order is that of the largest aligned block that starts there.
pub record IsCut (p : Pallocator) (s : ℕ) : Type 0 where
  pub place : (u : ℕ) × (s ≡ u * 2 ^ p.fo_bits)
  pub above : (o : ℕ) → p.max_order < o → p.lists o ≡ []
  pub counted : (x : ℕ) → covers p x ≡ (if leb p.start_addr x && ltb x s then 1 else 0)
  pub sized :
      (o z : ℕ)
      → IsIn z (p.lists o)
      → (0 < z) × (z < s) × ((q : ℕ) × (z ≡ q * block_size p o)) × (p.zone_n z ≡ block_size p o)
  pub fits : p.start_addr + 2 ^ (p.max_order + p.fo_bits) ≤ p.end_addr
  pub top :
      (r j : ℕ)
      → p.start_addr ≤ r * 2 ^ (j + p.fo_bits)
      → r * 2 ^ (j + p.fo_bits) < s
      → r * 2 ^ (j + p.fo_bits) + 2 ^ (j + p.fo_bits) ≤ p.end_addr
      → j ≤ p.max_order

-- Lists above the highest order add nothing.
total_above :
    (k : ℕ) (lists : ℕ → List ℕ) (n d x : ℕ)
    → ((o : ℕ) → n ≤ o → lists o ≡ [])
    → total k lists (d + n) x ≡ total k lists n x
total_above k lists n zero x h = ap (λ (m : ℕ). total k lists m x) (omega arith)
total_above k lists n (suc d) x h =
    ap (λ (m : ℕ). total k lists m x) next
    ∙ ap (λ zs. count (2 ^ (d + n + k)) zs x + total k lists (d + n) x) (h (d + n) (omega arith))
    ∙ zero_add (total k lists (d + n) x)
    ∙ total_above k lists n d x h
  where
    next : suc d + n ≡ suc (d + n)
    next = omega arith

    zero_add : (m : ℕ) → 0 + m ≡ m
    zero_add m = omega arith

-- A block of order `c` is put at the end of its list.
abbrev added : Pallocator → ℕ → ℕ → Pallocator
added p s c = record p {
  lists = at p.lists c (p.lists c ++ (s ∷ []));
  zone_n = at p.zone_n s (block_size p c);
  free_space = add64 p.free_space (block_size p c);
  max_order = if ltb p.max_order c then c else p.max_order;
}

add_zone-added :
    (p : Pallocator) (s c : ℕ) → c + p.fo_bits < 31 → add_zone p s (block_size p c) ≡ added p s c
unfolding add_zone
add_zone-added p s c small =
    let e : order_of p (block_size p c) ≡ c =
      omega (arith, small, log2_two_pow (c + p.fo_bits) (omega (arith, small))) in
    rw e refl

max_grows :
    (p : Pallocator) (s c : ℕ)
    → (p.max_order ≤ (added p s c).max_order) × (c ≤ (added p s c).max_order)
max_grows p s c = (ground arith, ground arith)

module _ {p : Pallocator} {s : ℕ} (w : IsCut p s) (c : ℕ) (after : p.start_addr ≤ s) where
  added-above : (o : ℕ) → (added p s c).max_order < o → (added p s c).lists o ≡ []
  added-above o more =
      let (grown, least) = max_grows p s c in
      let other : (o == c) ≡ false = ne→== o c (λ e. omega (arith, e, least, more)) in
      rw other (w.above o (omega (arith, grown, more)))

  added-counted :
      (x : ℕ)
      → covers (added p s c) x ≡ (if leb p.start_addr x && ltb x (s + block_size p c) then 1 else 0)
  added-counted x =
      let (grown, least) = max_grows p s c in
      let m = (added p s c).max_order in
      let k = p.fo_bits in
      let exchanged =
        total-at k p.lists c (p.lists c ++ (s ∷ [])) (suc m) x (omega (arith, least)) in
      let further : suc m ≡ m - p.max_order + suc p.max_order = omega (arith, grown) in
      let longer : total k p.lists (suc m) x ≡ covers p x =
        ap (λ (n : ℕ). total k p.lists n x) further
        ∙ total_above k p.lists (suc p.max_order) (m - p.max_order) x
            (λ o lt. w.above o (omega (arith, lt))) in
      let one : covers (added p s c) x ≡ covers p x + holds (block_size p c) s x =
        omega (arith, exchanged, longer, count-append (block_size p c) (p.lists c) (s ∷ []) x) in
      one ∙ ground (arith, w.counted x, pow_double (c + k), after)

  added-sized :
      0 < s
      → (t : ℕ) × (s ≡ t * block_size p c)
      → (o z : ℕ) → IsIn z ((added p s c).lists o)
      → (0 < z)
        × (z < s + block_size p c)
        × ((q : ℕ) × (z ≡ q * block_size p o))
        × ((added p s c).zone_n z ≡ block_size p o)
  added-sized positive placed o z i = elim (Bool-cases (o == c)) [
    | inr other ↦ old (subst (λ b. IsIn z (if b then p.lists c ++ (s ∷ []) else p.lists o)) other i)
    | inl same ↦
        elim (IsIn-append_cases z (p.lists c) (s ∷ [])
          (subst (λ b. IsIn z (if b then p.lists c ++ (s ∷ []) else p.lists o)) same i)) [
            | inl before ↦ old (subst (λ n. IsIn z (p.lists n)) (sym (==→eq o c same)) before)
            | inr new ↦ elim new [
              | inl e ↦
                  rw (e, ==→eq o c same)
                    (
                      positive,
                      omega (arith, pow_double (c + p.fo_bits)),
                      placed,
                      rw (==_refl s) refl,
                    )
              | inr none_left ↦ absurd none_left
            ]
          ]
  ]
    where
      old :
          IsIn z (p.lists o)
          → (0 < z)
            × (z < s + block_size p c)
            × ((q : ℕ) × (z ≡ q * block_size p o))
            × ((added p s c).zone_n z ≡ block_size p o)
      old j =
          let (some_addr, less, aligned, stored) = w.sized o z j in
          let other : (z == s) ≡ false = ne→== z s (λ e. omega (arith, e, less)) in
          (some_addr, omega (arith, less), aligned, rw other stored)

  -- A larger block that starts in the new one starts where it does.
  added-top :
      (t : ℕ) × (s ≡ t * block_size p c)
      → ((r j : ℕ) → r * 2 ^ (j + p.fo_bits) ≡ s → s + 2 ^ (j + p.fo_bits) ≤ p.end_addr → j ≤ c)
      → (r j : ℕ) → p.start_addr ≤ r * 2 ^ (j + p.fo_bits)
      → r * 2 ^ (j + p.fo_bits) < s + block_size p c
      → r * 2 ^ (j + p.fo_bits) + 2 ^ (j + p.fo_bits) ≤ p.end_addr
      → j ≤ (added p s c).max_order
  added-top (t, placed) most r j lo hi within =
      let (grown, least) = max_grows p s c in
      let k = p.fo_bits in
      elim (Bool-cases (ltb (r * 2 ^ (j + k)) s)) [
        | inl old ↦ omega (arith, grown, w.top r j lo (ltb→lt _ _ old) within)
        | inr new ↦ elim (Bool-cases (ltb c j)) [
          | inr less ↦ omega (arith, least, ltb→ge _ _ less)
          | inl more ↦
              let split : j + k ≡ j - c + (c + k) = omega (arith, ltb→lt _ _ more) in
              let power : r * 2 ^ (j + k) ≡ r * 2 ^ (j - c + (c + k)) =
                ap (λ (n : ℕ). r * 2 ^ n) split in
              let start =
                aligned_start (c + k) (j - c) r t (omega (arith, ltb→ge _ _ new, placed, power))
                  (omega (arith, hi, placed, power)) in
              omega (
                arith,
                least,
                most r j (power ∙ sym start ∙ sym placed)
                    (omega (arith, within, power, start, placed)),
              )
        ]
      ]

  added-IsCut :
      0 < s
      → (t : ℕ) × (s ≡ t * block_size p c)
      → ((r j : ℕ) → r * 2 ^ (j + p.fo_bits) ≡ s → s + 2 ^ (j + p.fo_bits) ≤ p.end_addr → j ≤ c)
      → s + block_size p c ≤ p.end_addr
      → IsCut (added p s c) (s + block_size p c)
  added-IsCut positive placed most inside = record {
    place = let (u, es) = w.place in (u + 2 ^ c, ground (arith, es, two_pow_add c p.fo_bits));
    above = added-above;
    counted = added-counted;
    sized = added-sized positive placed;
    fits = elim (Bool-cases (ltb p.max_order c)) [
      | inl higher ↦ rw higher (omega (arith, inside, after))
      | inr lower ↦ rw lower w.fits
    ];
    top = added-top placed most;
  }

-- The loop ends, at the end of the range.
pub fill_loop-IsCut :
    (fuel : ℕ) (p : Pallocator) (s v : ℕ)
    → IsCut p s
    → p.start_addr ≤ s
    → p.end_addr ≡ v * 2 ^ p.fo_bits
    → 2 ^ 63 < s
    → s ≤ p.end_addr
    → p.end_addr < 2 ^ 64
    → p.end_addr < s + 2 ^ 31
    → p.end_addr < s + fuel
    → (p' : Pallocator) × (fill_loop fuel p s ≡ some p')
      × IsCut p' p'.end_addr
      × (p'.alloced ≡ p.alloced)
      × (p'.start_addr ≡ p.start_addr)
      × (p'.end_addr ≡ p.end_addr)
      × (p'.first_order_size ≡ p.first_order_size)
      × (p'.fo_bits ≡ p.fo_bits)
unfolding fill_loop
fill_loop-IsCut zero p s v w after ev lo hi word near f = absurd (omega arith)
fill_loop-IsCut (suc fuel) p s v w after ev lo hi word near f =
    elim (Bool-cases (ltb s p.end_addr)) [
      | inr done ↦
          let e : s ≡ p.end_addr = omega (arith, hi, ltb→ge _ _ done) in
          rw done (p, refl, subst (λ n. IsCut p n) e w, refl, refl, refl, refl, refl)
      | inl more ↦
          let (u, es) = w.place in
          let below = ltb→lt _ _ more in
          let (c, size, placed, inside, most) = zone_size_power p s u v es ev lo below word in
          let small : c + p.fo_bits < 31 =
            power_lt (c + p.fo_bits) 31 (omega (arith, near, inside)) in
          let (_, some_bytes) = pow_double (c + p.fo_bits) in
          let no_wrap : add64 s (block_size p c) ≡ s + block_size p c =
            omega (arith, inside, word) in
          let done =
            fill_loop-IsCut fuel (added p s c) (s + block_size p c) v
              (added-IsCut w c after (omega arith) placed most inside) (omega arith) ev
              (omega arith) (omega arith) word (omega arith) (omega arith) in
          rw (more, size, no_wrap, add_zone-added p s c small) done
    ]
