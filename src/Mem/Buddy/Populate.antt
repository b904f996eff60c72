-- ===== src/Mem/Buddy/Populate.antt =====
-- When `populate_order` and `oalloc` of src/mem/pmem.cpp find memory.
use cpp_os.Base.{
  ℕ, zero, suc, ◌+◌, ◌-◌, ◌≡◌, ◌↔◌, ◌<◌, ◌≤◌, ◌∙◌, ap, sym, true, false, List, [], ◌∷◌, ◌++◌,
  ==_refl, ==→eq, ltb, ◌==◌, arith, refl, Bool-cases, inl, inr,
}
use cpp_os.Mem.Buddy.{Pallocator, populate_order, split_zone, is_empty, at, without_last}

-- Some list from `order` up to `max_order` holds a zone.
abbrev pub HasZone : Pallocator → ℕ → Type 0
HasZone p order = (k : ℕ) × (order ≤ k) × (k ≤ p.max_order) × (is_empty (p.lists k) ≡ false)

nonempty_append : (s : List ℕ) (z w : ℕ) → is_empty (s ++ (z ∷ w ∷ [])) ≡ false
nonempty_append [] z w = refl
nonempty_append (x ∷ s) z w = refl

added :
    (s : List ℕ) (k : ℕ) (f : ℕ → List ℕ) (z w : ℕ)
    → is_empty (at f k (f k ++ (z ∷ w ∷ [])) k) ≡ false
added s k f z w = let same = ==_refl k in rw (same) (nonempty_append (f k) z w)

-- A split leaves zones in the list below.
split_zone-lists :
    (p : Pallocator) (order : ℕ) → is_empty ((split_zone p order).lists (order - 1)) ≡ false
unfolding split_zone
split_zone-lists p order =
    added (p.lists order) (order - 1) (at p.lists order (without_last (p.lists order))) _ _

-- `populate_order`, on fuel for every order up to the highest, succeeds exactly
-- where some list of its order or above holds a zone, and then leaves the list below its order with
-- a zone.
pub populate_order_lem :
    (fuel : ℕ) (p : Pallocator) (order : ℕ)
    → p.max_order < fuel + order
    → let (ok, p') = populate_order fuel p order in
      ((ok ≡ true) ↔ HasZone p order) × (ok ≡ true → is_empty (p'.lists (order - 1)) ≡ false)
unfolding populate_order
populate_order_lem zero p order h = (
  (λ e. absurd (ground (arith, e)), λ z. absurd (omega (arith, z.1, z.2))),
  λ e. absurd (ground (arith, e)),
)
populate_order_lem (suc fuel) p order h = elim (Bool-cases (ltb p.max_order order)) [
  | inl above ↦ rw (above) (
    (λ e. absurd (ground (arith, e)), λ z. absurd (ground (arith, z.1, z.2))),
    λ e. absurd (ground (arith, e)),
  )
  | inr within ↦ elim (Bool-cases (is_empty (p.lists order))) [
    | inr here ↦
        rw (within, here)
          (
            (λ _. (order, omega arith, ground arith, here), λ _. refl),
            λ _. split_zone-lists p order,
          )
    | inl empty ↦ elim (Bool-cases (populate_order fuel p (order + 1)).0) [
      | inl ok ↦
          rw (within, empty, ok)
            (
              (
                (λ _.
                    (let (k, lo, hi, z) =
                        (populate_order_lem fuel p (order + 1) (omega arith)).0.0 ok in
                      (k, omega arith, hi, z))),
                λ _. refl,
              ),
              λ _. split_zone-lists _ order,
            )
      | inr fails ↦
          rw (within, empty, fails)
            (
              (
                (λ e. absurd (ground (arith, e))),
                λ z. absurd (
                    ground (
                      arith,
                      above_only (populate_order_lem fuel p (order + 1) (omega arith)).0 empty z
                          fails,
                    )),
              ),
              λ e. absurd (ground (arith, e)),
            )
    ]
  ]
]
  where
    above_only :
        (((populate_order fuel p (order + 1)).0 ≡ true) ↔ HasZone p (order + 1))
        → is_empty (p.lists order) ≡ true
        → HasZone p order
        → (populate_order fuel p (order + 1)).0 ≡ false
        → true ≡ false
    above_only below empty (k, lo, hi, z) fails = elim (Bool-cases (k == order)) [
      | inl here ↦ sym empty ∙ ap (λ (t : ℕ). is_empty (p.lists t)) (sym (==→eq k order here)) ∙ z
      | inr on ↦ sym (below.1 (k, ground arith, hi, z)) ∙ fails
    ]
