-- ===== src/Mem/Buddy/Blocks/Alloc.antt =====
-- What `oalloc` of src/mem/pmem.cpp hands out.
use cpp_os.Base.{
  ℕ, suc, ◌+◌, ◌-◌, ◌*◌, ◌^◌, ◌≤◌, ◌≡◌, ◌≢◌, ◌↔◌, refl, ap, sym, ◌∙◌, inl, inr, true, false, ◌⊎◌,
  List, [], ◌∷◌, sub64, ◌==◌, ltb, if◌then◌else◌, arith, Bool-cases, subst, ==→eq, ==→ne,
}
use cpp_os.Mem.Buddy.{
  Pallocator, at, last_zone, without_last, is_empty, populate_order, oalloc, get_meta,
  get_order_size,
}
use cpp_os.Mem.Buddy.Populate.{HasZone, populate_order_lem}
use cpp_os.Mem.Buddy.Blocks.{
  IsSound, holds, count, total, covers, block_size, total-at, IsIn-last_zone,
}
use cpp_os.Mem.Buddy.Blocks.Taken.{taken, total-taken, IsIn-taken}
use cpp_os.Mem.Buddy.Blocks.Populated.{Kept, Kept-self, populate_order-Kept, populate_order_fails}

nil_of_empty : (zs : List ℕ) → is_empty zs ≡ true → zs ≡ []
nil_of_empty [] h = refl
nil_of_empty (z ∷ zs) h = cc

-- The block at the end of a list is handed out.
module _ (p : Pallocator) (o : ℕ) (s : IsSound p) (le : o ≤ p.max_order) where
  pub taken-total :
      (x : ℕ)
      → total p.fo_bits (taken p o) (suc p.max_order) x
          + (if last_zone (p.lists o) == 0
              then 0
              else holds (block_size p o) (last_zone (p.lists o)) x)
        ≡ covers p x
  taken-total x = elim (Bool-cases (is_empty (p.lists o))) [
    | inl empty ↦
        let nothing = nil_of_empty (p.lists o) empty in
        let found : (last_zone (p.lists o) == 0) ≡ true = ground (arith, ap last_zone nothing) in
        rw found (
          omega (
            arith,
            total-at p.fo_bits p.lists o (without_last (p.lists o)) (suc p.max_order) x
                (omega arith),
            ap (λ (zs : List ℕ). count (block_size p o) zs x) nothing,
            ap (λ (zs : List ℕ). count (block_size p o) (without_last zs) x) nothing,
          ))
    | inr some_zone ↦
        let (positive, _, _) =
          s.sized o (last_zone (p.lists o)) le (IsIn-last_zone (p.lists o) some_zone) in
        let found : (last_zone (p.lists o) == 0) ≡ false = ground (arith, positive) in
        rw found (total-taken p o (suc p.max_order) x (omega arith) some_zone)
  ]

  pub taken-apart : (x : ℕ) → total p.fo_bits (taken p o) (suc p.max_order) x ≤ 1
  taken-apart x = omega (arith, taken-total x, s.apart x)

  pub taken-aligned : (q : ℕ) × (last_zone (p.lists o) ≡ q * block_size p o)
  taken-aligned = elim (Bool-cases (is_empty (p.lists o))) [
    | inl empty ↦ (0, ground (arith, ap last_zone (nil_of_empty (p.lists o) empty)))
    | inr some_zone ↦
        (s.sized o (last_zone (p.lists o)) le (IsIn-last_zone (p.lists o) some_zone)).1
  ]

  pub taken_some : (last_zone (p.lists o) ≢ 0) ↔ (is_empty (p.lists o) ≡ false)
  taken_some = (
    (λ ne. elim (Bool-cases (is_empty (p.lists o))) [
      | inl empty ↦ absurd (ne (ap last_zone (nil_of_empty (p.lists o) empty)))
      | inr some_zone ↦ some_zone
    ]),
    λ some_zone e.
        (let (positive, _, _) =
            s.sized o (last_zone (p.lists o)) le (IsIn-last_zone (p.lists o) some_zone) in
          omega (arith, positive, e)),
  )

-- The allocator whose list of the order is filled, if it can be.
unfoldable pub prepared : Pallocator → ℕ → Pallocator
prepared p order =
    if is_empty (p.lists order)
    then (populate_order (p.max_order + 1 - order) p (order + 1)).1
    else p

prepared_empty :
    (p : Pallocator) (o : ℕ)
    → is_empty (p.lists o) ≡ true
    → prepared p o ≡ (populate_order (p.max_order + 1 - o) p (suc o)).1
unfolding prepared
prepared_empty p o empty = let next : o + 1 ≡ suc o = omega arith in rw (empty, next) refl

prepared_here : (p : Pallocator) (o : ℕ) → is_empty (p.lists o) ≡ false → prepared p o ≡ p
unfolding prepared
prepared_here p o here = rw here refl

pub prepared-Kept : (p : Pallocator) (o : ℕ) → IsSound p → o ≤ p.max_order → Kept p (prepared p o)
prepared-Kept p o s le = elim (Bool-cases (is_empty (p.lists o))) [
  | inr here ↦ subst (λ (q : Pallocator). Kept p q) (sym (prepared_here p o here)) (Kept-self p s)
  | inl empty ↦
      subst (λ (q : Pallocator). Kept p q) (sym (prepared_empty p o empty))
        (populate_order-Kept (p.max_order + 1 - o) p o s (omega arith))
]

-- The list of the order is filled exactly where a block can be found.
pub prepared_some :
    (p : Pallocator) (o : ℕ)
    → o ≤ p.max_order
    → (is_empty ((prepared p o).lists o) ≡ false) ↔ HasZone p o
prepared_some p o le = elim (Bool-cases (is_empty (p.lists o))) [
  | inr here ↦ (
    (λ h. (o, omega arith, le, here)),
    λ h. ap (λ (q : Pallocator). is_empty (q.lists o)) (prepared_here p o here) ∙ here,
  )
  | inl empty ↦
      let r = populate_order (p.max_order + 1 - o) p (suc o) in
      let (found, filled) = populate_order_lem (p.max_order + 1 - o) p (suc o) (omega arith) in
      let below : suc o - 1 ≡ o = omega arith in
      let same : is_empty ((prepared p o).lists o) ≡ is_empty (r.1.lists o) =
        ap (λ (q : Pallocator). is_empty (q.lists o)) (prepared_empty p o empty) in
      (
        (λ h. elim (Bool-cases r.0) [
          | inl ok ↦ let (k, lo, hi, z) = found.0 ok in (k, omega arith, hi, z)
          | inr fails ↦
              let kept = populate_order_fails (p.max_order + 1 - o) p o fails in
              cc (ap (λ (q : Pallocator). is_empty (q.lists o)) kept)
        ]),
        λ z. elim (Bool-cases (z.0 == o)) [
          | inl here ↦ cc (ap (λ (k : ℕ). is_empty (p.lists k)) (==→eq _ _ here))
          | inr above ↦
              same
              ∙ (rw below at
                  (filled (found.1 (z.0, ground (arith, z.1, ==→ne _ _ above), z.2, z.3))))
        ],
      )
]

-- The allocator without the block that is handed out.
abbrev pub popped : Pallocator → ℕ → Pallocator
popped p o = record p { lists = taken p o }

unfoldable pub handed_out : Pallocator → ℕ → ℕ → Pallocator
handed_out p o out = record p {
  lists = taken p o;
  alloced = at p.alloced (get_meta p out) true;
  order = at p.order (get_meta p out) o;
  free_space = sub64 p.free_space (get_order_size p o);
}

pub oalloc_cases :
    (p : Pallocator) (o : ℕ)
    → o ≤ p.max_order
    → let p₁ = prepared p o in
      let out = last_zone (p₁.lists o) in
      ((out ≡ 0) × (oalloc p o ≡ (0, popped p₁ o)))
      ⊎ ((out ≢ 0) × (oalloc p o ≡ (out, handed_out p₁ o out)))
unfolding oalloc prepared handed_out
oalloc_cases p o le =
    let out = last_zone ((prepared p o).lists o) in
    let within : ltb p.max_order o ≡ false = ground arith in
    elim (Bool-cases (out == 0)) [
      | inl none_left ↦ inl (==→eq _ _ none_left, rw (within, none_left) refl)
      | inr found ↦ inr (==→ne _ _ found, rw (within, found) refl)
    ]

pub popped-IsSound : (p : Pallocator) (o : ℕ) → IsSound p → o ≤ p.max_order → IsSound (popped p o)
popped-IsSound p o s le = record {
  sized = λ b w hb i. s.sized b w hb (IsIn-taken p o b w i);
  apart = λ x. taken-apart p o s le x;
}

pub handed_out-IsSound :
    (p : Pallocator) (o out : ℕ) → IsSound p → o ≤ p.max_order → IsSound (handed_out p o out)
unfolding handed_out
handed_out-IsSound p o out s le =
    let t = popped-IsSound p o s le in record { sized = t.sized; apart = t.apart }

-- `oalloc` finds a block exactly where some list of the order or above holds one. The block is aligned
-- to its size, and it was free: each address lies in it or in a free block that is left as often as it
-- lay in a free block before, which is once at most. The free blocks stay sound.
pub oalloc-IsSound :
    (p : Pallocator) (order : ℕ)
    → IsSound p
    → order ≤ p.max_order
    → let (out, p') = oalloc p order in
      IsSound p'
      × ((out ≢ 0) ↔ HasZone p order)
      × ((q : ℕ) × (out ≡ q * block_size p order))
      × ((x : ℕ)
          → covers p' x + (if out == 0 then 0 else holds (block_size p order) out x) ≡ covers p x)
unfolding handed_out
oalloc-IsSound p order s le =
    let p₁ = prepared p order in
    let out = last_zone (p₁.lists order) in
    let (s₁, m, f, same, _, _, _) = prepared-Kept p order s le in
    let le₁ : order ≤ p₁.max_order = omega (arith, m) in
    let size : block_size p₁ order ≡ block_size p order = ap (λ (k : ℕ). 2 ^ (order + k)) f in
    let (q, aligned) = taken-aligned p₁ order s₁ le₁ in
    let placed : out ≡ q * block_size p order = aligned ∙ ap (λ (n : ℕ). q * n) size in
    let some_out = taken_some p₁ order s₁ le₁ in
    let some_zone = prepared_some p order le in
    let found : (out ≢ 0) ↔ HasZone p order =
      ((λ ne. some_zone.0 (some_out.0 ne)), λ z. some_out.1 (some_zone.1 z)) in
    let counted : (x : ℕ)
        → total p₁.fo_bits (taken p₁ order) (suc p₁.max_order) x
            + (if out == 0 then 0 else holds (block_size p order) out x)
          ≡ covers p x =
      λ x.
        subst
          (λ (n : ℕ).
            total p₁.fo_bits (taken p₁ order) (suc p₁.max_order) x
              + (if out == 0 then 0 else holds n out x)
            ≡ covers p x)
          size (taken-total p₁ order s₁ le₁ x ∙ same x) in
    let P : ℕ × Pallocator → Type 0 = λ r.
      IsSound r.1
      × ((r.0 ≢ 0) ↔ HasZone p order)
      × ((q : ℕ) × (r.0 ≡ q * block_size p order))
      × ((x : ℕ)
          → covers r.1 x + (if r.0 == 0 then 0 else holds (block_size p order) r.0 x)
            ≡ covers p x) in
    elim (oalloc_cases p order le) [
      | inr (_, e) ↦
          subst P (sym e) (handed_out-IsSound p₁ order out s₁ le₁, found, (q, placed), counted)
      | inl (zero_out, e) ↦ subst P (sym e) (
          subst (λ (a : ℕ). P (a, popped p₁ order)) zero_out
            (popped-IsSound p₁ order s₁ le₁, found, (q, placed), counted))
    ]
