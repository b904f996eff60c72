-- ===== src/Interrupt/Slots.antt =====
-- The slots of one vector, src/int/int.cpp.
use cpp_os.Base.{
  ℕ, zero, suc, ◌+◌, ◌<◌, ◌≤◌, ◌≡◌, ◌≢◌, ◌⊎◌, inl, inr, ap, ap₂, sym, ltb→lt, get_or-set_self, Bool,
  true, false, List, [], ◌∷◌, ltb, leb, ◌==◌, get_or, set, length, arith, refl, Bool-cases, ==→eq,
}
use cpp_os.Interrupt.{
  IntHandlerType, normal, first, reg, find_slot, reg_int_handler, rem_int_handler,
}

true_ne_false : ◌≢◌ {A = Bool} true false
true_ne_false e = absurd (ground (arith, e))

-- The handler stands in no slot.
abbrev pub Absent : ℕ → List ℕ → Type 0
Absent h [] = Unit {0}
Absent h (x ∷ xs) = (x ≢ h) × Absent h xs

rem_int_handler-Absent : (hs : List ℕ) (h : ℕ) → Absent h hs → rem_int_handler hs h ≡ hs
unfolding rem_int_handler
rem_int_handler-Absent [] h a = refl
rem_int_handler-Absent (x ∷ xs) h a =
    ap₂ (λ (y : ℕ) (ys : List ℕ). y ∷ ys) (ground arith) (rem_int_handler-Absent xs h a.1)

rem_int_handler-set :
    (hs : List ℕ) (i h : ℕ) → Absent h hs → get_or hs i 0 ≡ 0 → rem_int_handler (set hs i h) h ≡ hs
unfolding rem_int_handler
rem_int_handler-set [] i h a z = refl
rem_int_handler-set (x ∷ xs) zero h a z =
    ap₂ (λ (y : ℕ) (ys : List ℕ). y ∷ ys) (ground arith) (rem_int_handler-Absent xs h a.1)
rem_int_handler-set (x ∷ xs) (suc i) h a z =
    ap₂ (λ (y : ℕ) (ys : List ℕ). y ∷ ys) (ground arith) (rem_int_handler-set xs i h a.1 z)

-- The search ends at a free slot before the sixteenth, or at 16 with every slot taken.
find_slot_lem :
    (n : ℕ) (hs : List ℕ) (i : ℕ)
    → n + i ≡ 16
    → ((find_slot n hs i < 16) × (i ≤ find_slot n hs i) × (get_or hs (find_slot n hs i) 0 ≡ 0))
      ⊎ ((find_slot n hs i ≡ 16) × ((j : ℕ) → i ≤ j → j < 16 → get_or hs j 0 ≢ 0))
unfolding find_slot
find_slot_lem zero hs i e = inr (omega arith, λ j lo hi. absurd (omega arith))
find_slot_lem (suc n) hs i e = elim (Bool-cases (get_or hs i 0 == 0)) [
  | inl free ↦ rw (free) (inl (omega arith, omega arith, ground arith))
  | inr taken ↦ elim (Bool-cases (leb 15 i)) [
    | inl last ↦
        rw (taken, last)
          (inr (
            refl,
            λ j lo hi z. absurd (ground (arith, ap (λ (t : ℕ). get_or hs t 0) (same j lo hi last))),
          ))
    | inr more ↦
        rw (taken, more)
          (elim (find_slot_lem n hs (i + 1) (omega arith)) [
            | inl (a, b, c) ↦ inl (a, omega arith, c)
            | inr (a, b) ↦ inr (
              a,
              λ j lo hi z. elim (Bool-cases (j == i)) [
                | inl here ↦ ground (arith, ap (λ (t : ℕ). get_or hs t 0) (==→eq j i here))
                | inr on ↦ b j (ground arith) hi z
              ],
            )
          ])
  ]
]
  where
    same : (j : ℕ) → i ≤ j → j < 16 → leb 15 i ≡ true → j ≡ i
    same j lo hi last = ground arith

-- A handler that was not registered is taken back by `rem_int_handler`: after a registration of
-- any type that succeeds, removing the handler restores the table; one that fails leaves the table
-- as it is.
pub rem_int_handler-reg_int_handler :
    (hs : List ℕ) (h : ℕ) (t : IntHandlerType)
    → Absent h hs
    → let (ok, hs') = reg_int_handler hs h t in
      (ok ≡ true → rem_int_handler hs' h ≡ hs) × (ok ≡ false → hs' ≡ hs)
unfolding reg_int_handler
rem_int_handler-reg_int_handler hs h first a = elim (Bool-cases (get_or hs 0 0 == 0)) [
  | inl free ↦
      rw (free)
        ((λ _. rem_int_handler-set hs 0 h a (==→eq _ 0 free)), λ e. absurd (true_ne_false e))
  | inr taken ↦ rw (taken) ((λ e. absurd (true_ne_false (sym e))), λ _. refl)
]
rem_int_handler-reg_int_handler hs h reg a = elim (Bool-cases (get_or hs 15 0 == 0)) [
  | inl free ↦
      rw (free)
        ((λ _. rem_int_handler-set hs 15 h a (==→eq _ 0 free)), λ e. absurd (true_ne_false e))
  | inr taken ↦ rw (taken) ((λ e. absurd (true_ne_false (sym e))), λ _. refl)
]
rem_int_handler-reg_int_handler hs h normal a = elim (find_slot_lem 15 hs 1 refl) [
  | inl (lt, lo, free) ↦
      let in_range : (find_slot 15 hs 1 == 16) ≡ false = ground arith in
      rw (in_range)
        ((λ _. rem_int_handler-set hs (find_slot 15 hs 1) h a free), λ e. absurd (true_ne_false e))
  | inr (full, _) ↦
      let out : (find_slot 15 hs 1 == 16) ≡ true = ground (arith, full) in
      rw (out) ((λ e. absurd (true_ne_false (sym e))), λ _. refl)
]

-- A handler of type `normal` can take the last slot, which is the one of type `reg`: with 16 slots,
-- of which 1 to 14 are taken and 15 is free, it does, and a handler of type `reg` is then refused.
pub reg_int_handler_last :
    (hs : List ℕ) (h g : ℕ)
    → length hs ≡ 16
    → h ≢ 0
    → ((j : ℕ) → 1 ≤ j → j < 15 → get_or hs j 0 ≢ 0)
    → get_or hs 15 0 ≡ 0
    → (reg_int_handler hs h normal ≡ (true, set hs 15 h))
      × ((reg_int_handler (set hs 15 h) g reg).0 ≡ false)
unfolding reg_int_handler
reg_int_handler_last hs h g len ne taken free = elim (find_slot_lem 15 hs 1 refl) [
  | inl (lt, lo, z) ↦
      let at : find_slot 15 hs 1 ≡ 15 = elim (Bool-cases (ltb (find_slot 15 hs 1) 15)) [
        | inl before ↦ absurd (taken _ lo (ltb→lt _ 15 before) z)
        | inr behind ↦ ground arith
      ] in
      let held : (get_or (set hs 15 h) 15 0 == 0) ≡ false =
        ground (arith, get_or-set_self hs 15 h 0 (omega (arith, len))) in
      (rw (at) refl, rw (held) refl)
  | inr (_, all) ↦ absurd (all 15 (omega arith) (omega arith) free)
]
