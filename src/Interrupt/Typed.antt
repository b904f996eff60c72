-- ===== src/Interrupt/Typed.antt =====
-- The widths of the fields of a gate: src/int/int.cpp and include/int.hpp.
use cpp_os.Base.{
  ℕ, zero, suc, ◌^◌, ◌<◌, ◌≡◌, refl, List, [], ◌∷◌, set, length, length-set, ◌∙◌, arith, Bool-cases,
  inl, inr, ◌==◌,
}
use cpp_os.Util.Misc.Fields.{get_bits_lem}
use cpp_os.Interrupt.{IdtE, idt_add_entry}
use cpp_os.Interrupt.Frame.{idt_init, add_gates, gate_attr, idt_vectors}

-- Each field fits its type in `struct idt_e`: u16, u16, u8, u8, u16, u32 and u32.
abbrev pub HasType : IdtE → Type 0
HasType e =
    (e.p1 < 2 ^ 16)
    × (e.gdt_select < 2 ^ 16)
    × (e.ist < 2 ^ 8)
    × (e.attr < 2 ^ 8)
    × (e.p2 < 2 ^ 16)
    × (e.p3 < 2 ^ 32)
    × (e.gate_zero < 2 ^ 32)

abbrev pub AllTyped : List IdtE → Type 0
AllTyped [] = Unit {0}
AllTyped (e ∷ es) = HasType e × AllTyped es

set-AllTyped :
    (idt : List IdtE) (v : ℕ) (e : IdtE) → HasType e → AllTyped idt → AllTyped (set idt v e)
set-AllTyped [] v e h all = tt
set-AllTyped (x ∷ xs) zero e h (t, ts) = (h, ts)
set-AllTyped (x ∷ xs) (suc v) e h (t, ts) = (t, set-AllTyped xs v e h ts)

idt_add_entry-AllTyped :
    (idt : List IdtE) (v f a : ℕ) → a < 2 ^ 8 → AllTyped idt → AllTyped (idt_add_entry idt v f a)
unfolding idt_add_entry
idt_add_entry-AllTyped idt v f a small all =
    set-AllTyped idt v _
      (
        omega (arith, get_bits_lem f 0 15 (omega arith) (omega arith)),
        omega arith,
        omega arith,
        small,
        omega (arith, get_bits_lem f 16 31 (omega arith) (omega arith)),
        omega (arith, get_bits_lem f 32 63 (omega arith) (omega arith)),
        omega arith,
      )
      all

gate_attr_small : (v : ℕ) → gate_attr v < 2 ^ 8
gate_attr_small v = elim (Bool-cases (v == 17)) [
  | inl e ↦ ground (arith, e)
  | inr ne ↦ ground (arith, ne)
]

add_gates-AllTyped :
    (vs : List ℕ) (idt : List IdtE) (handler : ℕ → ℕ)
    → AllTyped idt
    → (length (add_gates idt handler vs) ≡ length idt) × AllTyped (add_gates idt handler vs)
unfolding add_gates idt_add_entry
add_gates-AllTyped [] idt handler all = (refl, all)
add_gates-AllTyped (v ∷ vs) idt handler all =
    let next = idt_add_entry idt v (handler v) (gate_attr v) in
    let (l, t) =
      add_gates-AllTyped vs next handler
        (idt_add_entry-AllTyped idt v (handler v) (gate_attr v) (gate_attr_small v) all) in
    (l ∙ length-set idt v _, t)

-- Where the fields of all gates fit their types, `idt_init` leaves as many gates and their fields still
-- fit, whatever the addresses of the handlers are.
pub idt_init-AllTyped :
    (idt : List IdtE) (handler : ℕ → ℕ)
    → AllTyped idt
    → (length (idt_init idt handler) ≡ length idt) × AllTyped (idt_init idt handler)
unfolding idt_init
idt_init-AllTyped idt handler all = add_gates-AllTyped idt_vectors idt handler all
