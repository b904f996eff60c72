-- ===== src/Mem/Buddy/Blocks/Joined.antt =====
-- Two buddies that `merge_order` of src/mem/pmem.cpp makes one block.
use cpp_os.Base.{
  ℕ, zero, suc, ◌+◌, ◌*◌, ◌%◌, ◌^◌, bit_xor, min, max, ◌<◌, ◌≤◌, ◌≡◌, ◌≢◌, refl, ap, sym, ◌∙◌, ◌⊎◌,
  inl, inr, false, ◌||◌, List, [], ◌∷◌, ◌++◌, ltb, ◌==◌, arith, IsIn, IsIn-append_last, Bool-cases,
  ==→eq, ==→ne, ==_refl, subst, add64,
}
use cpp_os.Util.Math.{shl_int}
use cpp_os.Util.Math.Laws.{shl_int_lem}
use cpp_os.Mem.Buddy.{Pallocator, at, get_meta, get_order_size, remove_zone, merge_order}
use cpp_os.Mem.Buddy.Blocks.{
  IsSound, SameFrame, holds, count, total, covers, block_size, count-append, count_positive,
  count-le-total, total-at, IsIn-append_cases,
}
use cpp_os.Mem.Buddy.Blocks.Aligned.{pow_double, larger_power}
use cpp_os.Mem.Buddy.Blocks.Split.{holds_halves}

count-remove_zone :
    (size z : ℕ) (zs : List ℕ) (x : ℕ)
    → IsIn z zs
    → count size (remove_zone z zs) x + holds size z x ≡ count size zs x
count-remove_zone size z [] x i = absurd i
count-remove_zone size z (w ∷ zs) x i = elim (Bool-cases (w == z)) [
  | inl same ↦ rw same (omega (arith, ap (λ (n : ℕ). holds size n x) (==→eq w z same)))
  | inr other ↦ rw other (elim i [
    | inl e ↦ absurd (ground (arith, e, ==→ne _ _ other))
    | inr j ↦ omega (arith, count-remove_zone size z zs x j)
  ])
]

IsIn-remove_zone : (w z : ℕ) (zs : List ℕ) → IsIn w (remove_zone z zs) → IsIn w zs
IsIn-remove_zone w z [] i = i
IsIn-remove_zone w z (v ∷ zs) i = elim (Bool-cases (v == z)) [
  | inl same ↦ inr (rw same at i)
  | inr other ↦ elim (rw other at i) [ inl e ↦ inl e | inr j ↦ inr (IsIn-remove_zone w z zs j) ]
]

IsIn-remove_zone_ne : (w z : ℕ) (zs : List ℕ) → w ≢ z → IsIn w zs → IsIn w (remove_zone z zs)
IsIn-remove_zone_ne w z [] ne i = absurd i
IsIn-remove_zone_ne w z (v ∷ zs) ne i = elim (Bool-cases (v == z)) [
  | inl same ↦ rw same (elim i [ inl e ↦ absurd (ne (e ∙ ==→eq v z same)) | inr j ↦ j ])
  | inr other ↦ rw other (elim i [ inl e ↦ inl e | inr j ↦ inr (IsIn-remove_zone_ne w z zs ne j) ])
]

-- The lists without the two halves, and with the whole.
abbrev pub left_lists : Pallocator → ℕ → ℕ → ℕ → ℕ → List ℕ
left_lists p o z z' = at p.lists o (remove_zone z' (remove_zone z (p.lists o)))

abbrev pub joined_lists : Pallocator → ℕ → ℕ → ℕ → ℕ → List ℕ
joined_lists p o z z' = let left = left_lists p o z z' in at left (o + 1) (left (o + 1) ++ (z ∷ []))

joined_lists_eq :
    (p : Pallocator) (o z z' : ℕ)
    → joined_lists p o z z'
      ≡ at (left_lists p o z z') (suc o) (left_lists p o z z' (suc o) ++ (z ∷ []))
joined_lists_eq p o z z' =
    let left = left_lists p o z z' in
    let next : o + 1 ≡ suc o = omega arith in ap (λ (n : ℕ). at left n (left n ++ (z ∷ []))) next

pub joined_lists_last : (p : Pallocator) (o z z' : ℕ) → IsIn z (joined_lists p o z z' (suc o))
joined_lists_last p o z z' =
    subst (λ (f : ℕ → List ℕ). IsIn z (f (suc o))) (sym (joined_lists_eq p o z z'))
      (rw (==_refl (suc o)) (IsIn-append_last z (left_lists p o z z' (suc o))))

IsIn-left_lists :
    (p : Pallocator) (o z z' c w : ℕ) → IsIn w (left_lists p o z z' c) → IsIn w (p.lists c)
IsIn-left_lists p o z z' c w i = elim (Bool-cases (c == o)) [
  | inl same ↦
      subst (λ k. IsIn w (p.lists k)) (sym (==→eq c o same))
        (IsIn-remove_zone w z (p.lists o)
          (IsIn-remove_zone w z' (remove_zone z (p.lists o)) (rw same at i)))
  | inr other ↦ rw other at i
]

unfoldable pub joined : Pallocator → ℕ → ℕ → ℕ → Pallocator
joined p o z z' = record p {
  zone_n = at p.zone_n z (get_order_size p o * 2 % 2 ^ 64);
  lists = joined_lists p o z z';
}

-- What `merge_order` does is to stop, or to go on with the buddies joined.
pub merge_order_cases :
    (fuel : ℕ) (p : Pallocator) (a o : ℕ)
    → let size = get_order_size p o in
      let b = bit_xor a size in
      (merge_order (suc fuel) p a o ≡ p)
      ⊎ ((p.start_addr ≤ b)
          × (add64 b size ≤ p.end_addr)
          × (p.alloced (get_meta p b) ≡ false)
          × (p.zone_n (min a b) ≡ p.zone_n (max a b))
          × (merge_order (suc fuel) p a o
              ≡ merge_order fuel (joined p o (min a b) (max a b)) (min a b) (o + 1)))
unfolding merge_order joined
merge_order_cases fuel p a o =
    let size = get_order_size p o in
    let b = bit_xor a size in
    elim (Bool-cases (ltb b p.start_addr || ltb p.end_addr (add64 b size))) [
      | inl outside ↦ inl (rw outside refl)
      | inr inside ↦ elim (Bool-cases (p.alloced (get_meta p b))) [
        | inl used ↦ inl (rw (inside, used) refl)
        | inr unused ↦ elim (Bool-cases (p.zone_n (min a b) == p.zone_n (max a b))) [
          | inr other ↦ inl (rw (inside, unused, other) refl)
          | inl same ↦ inr (
            ground (arith, inside),
            ground (arith, inside),
            unused,
            ==→eq _ _ same,
            rw (inside, unused, same) refl,
          )
        ]
      ]
    ]

pub merge_order-SameFrame :
    (fuel : ℕ) (p : Pallocator) (a o : ℕ) → SameFrame p (merge_order fuel p a o)
unfolding joined
merge_order-SameFrame zero p a o = unfold merge_order in (refl, refl, refl, refl, refl)
merge_order-SameFrame (suc fuel) p a o = elim (merge_order_cases fuel p a o) [
  | inl stops ↦ subst (λ q. SameFrame p q) (sym stops) (refl, refl, refl, refl, refl)
  | inr (_, _, _, _, goes_on) ↦
      let b = bit_xor a (get_order_size p o) in
      subst (λ q. SameFrame p q) (sym goes_on)
        (merge_order-SameFrame fuel (joined p o (min a b) (max a b)) (min a b) (o + 1))
]

-- The halves of a block that are free.
module _ {p : Pallocator} (s : IsSound p) (o r : ℕ) (le : suc o ≤ p.max_order)
    (small : o + p.fo_bits < 31) (first : IsIn (r * 2 ^ suc (o + p.fo_bits)) (p.lists o))
    (second : IsIn (r * 2 ^ suc (o + p.fo_bits) + block_size p o) (p.lists o)) where
  left-total :
      let z = r * 2 ^ suc (o + p.fo_bits) in
      (x : ℕ)
      → total p.fo_bits (left_lists p o z (z + block_size p o)) (suc p.max_order) x
          + holds (2 ^ suc (o + p.fo_bits)) z x
        ≡ covers p x
  left-total x =
      let z = r * 2 ^ suc (o + p.fo_bits) in
      let size = block_size p o in
      let (double, some_bytes) = pow_double (o + p.fo_bits) in
      omega (
        arith,
        total-at p.fo_bits p.lists o (remove_zone (z + size) (remove_zone z (p.lists o)))
            (suc p.max_order) x (omega arith),
        count-remove_zone size z (p.lists o) x first,
        count-remove_zone size (z + size) (remove_zone z (p.lists o)) x
            (IsIn-remove_zone_ne (z + size) z (p.lists o) (λ e. absurd (omega (arith, e))) second),
        holds_halves size z x,
        ap (λ (n : ℕ). holds n z x) double,
      )

  joined-covers_lists :
      let z = r * 2 ^ suc (o + p.fo_bits) in
      (x : ℕ)
      → total p.fo_bits (joined_lists p o z (z + block_size p o)) (suc p.max_order) x ≡ covers p x
  joined-covers_lists x =
      let z = r * 2 ^ suc (o + p.fo_bits) in
      let left = left_lists p o z (z + block_size p o) in
      let order : suc o + p.fo_bits ≡ suc (o + p.fo_bits) = omega arith in
      ap (λ (f : ℕ → List ℕ). total p.fo_bits f (suc p.max_order) x)
        (joined_lists_eq p o z (z + block_size p o))
      ∙ omega (
        arith,
        total-at p.fo_bits left (suc o) (left (suc o) ++ (z ∷ [])) (suc p.max_order) x
            (omega arith),
        count-append (2 ^ (suc o + p.fo_bits)) (left (suc o)) (z ∷ []) x,
        left-total x,
        ap (λ (n : ℕ). holds (2 ^ n) z x) order,
      )

  pub joined-covers :
      let z = r * 2 ^ suc (o + p.fo_bits) in
      (x : ℕ) → covers (joined p o z (z + block_size p o)) x ≡ covers p x
  unfolding joined
  joined-covers x = joined-covers_lists x

  abbrev Sized : ℕ → ℕ → Type 0
  Sized w c =
      let z = r * 2 ^ suc (o + p.fo_bits) in
      (0 < w)
      × ((q : ℕ) × (w ≡ q * block_size p c))
      × (at p.zone_n z (get_order_size p o * 2 % 2 ^ 64) w ≡ block_size p c)

  -- The other blocks keep their size.
  other_size :
      (c w : ℕ)
      → c ≤ p.max_order
      → IsIn w (
          left_lists p o
            (r * 2 ^ suc (o + p.fo_bits))
            (r * 2 ^ suc (o + p.fo_bits) + block_size p o)
            c)
      → Sized w c
  other_size c w hc i =
      let z = r * 2 ^ suc (o + p.fo_bits) in
      let left = left_lists p o z (z + block_size p o) in
      let (positive, aligned, stored) =
        s.sized c w hc (IsIn-left_lists p o z (z + block_size p o) c w i) in
      let away : holds (2 ^ suc (o + p.fo_bits)) z w ≡ 0 = omega (
        arith,
        left-total w,
        s.apart w,
        count_positive (block_size p c) (left c) w (pow_double (c + p.fo_bits)).1 i,
        count-le-total p.fo_bits left c (suc p.max_order) w (omega arith),
      ) in
      let (_, some_bytes) = pow_double (suc (o + p.fo_bits)) in
      let other : (w == z) ≡ false = ground (arith, away, some_bytes) in
      (positive, aligned, rw other stored)

  -- The joined block has twice the size.
  joined_size : Sized (r * 2 ^ suc (o + p.fo_bits)) (suc o)
  unfolding get_order_size
  joined_size =
      let z = r * 2 ^ suc (o + p.fo_bits) in
      let (positive, _, _) = s.sized o z (omega arith) first in
      let order : suc (o + p.fo_bits) ≡ suc o + p.fo_bits = omega arith in
      let size : 2 ^ suc (o + p.fo_bits) ≡ block_size p (suc o) = ap (λ (n : ℕ). 2 ^ n) order in
      let doubled : shl_int (o + p.fo_bits) * 2 % 2 ^ 64 ≡ 2 ^ suc (o + p.fo_bits) = omega (
        arith,
        shl_int_lem (o + p.fo_bits) small,
        pow_double (o + p.fo_bits),
        larger_power (o + p.fo_bits) 31 small,
      ) in
      (positive, (r, ap (λ (n : ℕ). r * n) size), rw (==_refl z) (doubled ∙ size))

  pub joined-IsSound :
      let z = r * 2 ^ suc (o + p.fo_bits) in IsSound (joined p o z (z + block_size p o))
  unfolding joined
  joined-IsSound =
      let z = r * 2 ^ suc (o + p.fo_bits) in
      let left = left_lists p o z (z + block_size p o) in
      record {
        sized = λ c w hc i.
            (let there =
                subst (λ (f : ℕ → List ℕ). IsIn w (f c))
                  (joined_lists_eq p o z (z + block_size p o)) i in
              elim (Bool-cases (c == suc o)) [
                | inr other ↦ other_size c w hc (rw other at there)
                | inl same ↦
                    subst (λ k. Sized w k) (sym (==→eq c (suc o) same))
                      (elim (IsIn-append_cases w (left (suc o)) (z ∷ []) (rw same at there)) [
                        | inl j ↦ other_size (suc o) w le j
                        | inr j ↦ elim j [
                          | inl e ↦ subst (λ v. Sized v (suc o)) (sym e) joined_size
                          | inr n ↦ absurd n
                        ]
                      ])
              ]);
        apart = λ x. subst (λ n. n ≤ 1) (sym (joined-covers_lists x)) (s.apart x);
      }
