-- ===== src/Mem/Buddy/Blocks/Populated.antt =====
-- `populate_order` of src/mem/pmem.cpp, on the addresses that are free.
use cpp_os.Base.{
  ℕ, zero, suc, ◌+◌, ◌-◌, ◌<◌, ◌≤◌, ◌≡◌, refl, ap, sym, ◌∙◌, inl, inr, true, false, Bool, ◌⊎◌,
  ltb→ge, ltb, arith, Bool-cases, subst,
}
use cpp_os.Mem.Buddy.{Pallocator, is_empty, split_zone, populate_order}
use cpp_os.Mem.Buddy.Populate.{populate_order_lem}
use cpp_os.Mem.Buddy.Blocks.{IsSound, SameFrame, covers}
use cpp_os.Mem.Buddy.Blocks.Split.{split_zone-covers, split_zone-IsSound}

-- The same addresses are free, in sound blocks.
abbrev pub Kept : Pallocator → Pallocator → Type 0
Kept p p' =
    IsSound p'
    × (p'.max_order ≡ p.max_order)
    × (p'.fo_bits ≡ p.fo_bits)
    × ((x : ℕ) → covers p' x ≡ covers p x)
    × SameFrame p p'
    × (p'.alloced ≡ p.alloced)
    × (p'.order ≡ p.order)

pub Kept-self : (p : Pallocator) → IsSound p → Kept p p
Kept-self p s = (s, refl, refl, (λ x. refl), (refl, refl, refl, refl, refl), refl, refl)

split_zone-Kept :
    (p p' : Pallocator) (o : ℕ)
    → Kept p p'
    → suc o ≤ p.max_order
    → is_empty (p'.lists (suc o)) ≡ false
    → Kept p (split_zone p' (suc o))
unfolding split_zone
split_zone-Kept p p' o (s, m, f, c, frame, used, orders) le some_zone =
    let le' : suc o ≤ p'.max_order = omega (arith, m) in
    (
      split_zone-IsSound p' o s le' some_zone,
      m,
      f,
      λ x. split_zone-covers p' o s le' some_zone x ∙ c x,
      frame,
      used,
      orders,
    )

-- The three ways through `populate_order`.
populate_order_cases :
    (fuel : ℕ) (p : Pallocator) (o : ℕ)
    → let (ok, p') = populate_order fuel p (suc (suc o)) in
      let r = populate_order (suc fuel) p (suc o) in
      (r ≡ (false, p))
      ⊎ ((suc o ≤ p.max_order)
          × (is_empty (p.lists (suc o)) ≡ false)
          × (r ≡ (true, split_zone p (suc o))))
      ⊎ ((suc o ≤ p.max_order) × (ok ≡ true) × (r ≡ (true, split_zone p' (suc o))))
      ⊎ ((ok ≡ false) × (r ≡ (false, p')))
unfolding populate_order
populate_order_cases fuel p o =
    let next : suc o + 1 ≡ suc (suc o) = omega arith in
    elim (Bool-cases (ltb p.max_order (suc o))) [
      | inl above ↦ inl (rw above refl)
      | inr within ↦ elim (Bool-cases (is_empty (p.lists (suc o)))) [
        | inr here ↦ inr (inl (ltb→ge _ _ within, here, rw (within, here) refl))
        | inl empty ↦ elim (Bool-cases (populate_order fuel p (suc (suc o))).0) [
          | inl ok ↦ inr (inr (inl (ltb→ge _ _ within, ok, rw (within, empty, next, ok) refl)))
          | inr fails ↦ inr (inr (inr (fails, rw (within, empty, next, fails) refl)))
        ]
      ]
    ]

pub populate_order-Kept :
    (fuel : ℕ) (p : Pallocator) (o : ℕ)
    → IsSound p
    → p.max_order < fuel + suc o
    → Kept p (populate_order fuel p (suc o)).1
populate_order-Kept zero p o s h = unfold populate_order in (Kept-self p s)
populate_order-Kept (suc fuel) p o s h =
    let kept = populate_order-Kept fuel p (suc o) s (omega arith) in
    let filled = (populate_order_lem fuel p (suc (suc o)) (omega arith)).1 in
    let below : suc (suc o) - 1 ≡ suc o = omega arith in
    let P : Bool × Pallocator → Type 0 = λ r. Kept p r.1 in
    elim (populate_order_cases fuel p o) [
      | inl e ↦ subst P (sym e) (Kept-self p s)
      | inr rest ↦ elim rest [
        | inl (le, here, e) ↦ subst P (sym e) (split_zone-Kept p p o (Kept-self p s) le here)
        | inr rest' ↦ elim rest' [
          | inl (le, ok, e) ↦ subst P (sym e) (
              split_zone-Kept p (populate_order fuel p (suc (suc o))).1 o kept le
                (rw below at (filled ok)))
          | inr (fails, e) ↦ subst P (sym e) kept
        ]
      ]
    ]

pub populate_order_fails :
    (fuel : ℕ) (p : Pallocator) (o : ℕ)
    → (populate_order fuel p (suc o)).0 ≡ false
    → (populate_order fuel p (suc o)).1 ≡ p
populate_order_fails zero p o h = unfold populate_order in refl
populate_order_fails (suc fuel) p o h = elim (populate_order_cases fuel p o) [
  | inl e ↦ ap (λ (r : Bool × Pallocator). r.1) e
  | inr rest ↦ elim rest [
    | inl (le, here, e) ↦ cc (ap (λ (r : Bool × Pallocator). r.0) e)
    | inr rest' ↦ elim rest' [
      | inl (le, ok, e) ↦ cc (ap (λ (r : Bool × Pallocator). r.0) e)
      | inr (fails, e) ↦
          ap (λ (r : Bool × Pallocator). r.1) e ∙ populate_order_fails fuel p (suc o) fails
    ]
  ]
]
