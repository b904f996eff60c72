-- ===== src/Interrupt/Gate.antt =====
-- The gates of the interrupt table, src/int/int.cpp.
use cpp_os.Base.{
  ℕ, ◌+◌, ◌*◌, ◌^◌, ◌<◌, ◌≡◌, List, length, get_or, arith, get_or-set_self, subst, sym, refl,
}
use cpp_os.Util.Misc.{get_bits}
use cpp_os.Util.Misc.Fields.{get_bits_lem}
use cpp_os.Interrupt.{IdtE, idt_add_entry}

-- The handler's address as the processor puts it together from the gate.
abbrev pub target : IdtE → ℕ
target e = e.p1 + e.p2 * 2 ^ 16 + e.p3 * 2 ^ 32

gate_of : ℕ → ℕ → IdtE
gate_of func attr = record {
  p1 = get_bits func 0 15;
  gdt_select = 8;
  ist = 0;
  attr = attr;
  p2 = get_bits func 16 31;
  p3 = get_bits func 32 63;
  gate_zero = 0;
}

whole :
    (func : ℕ)
    → func < 2 ^ 64
    → get_bits func 0 15 + get_bits func 16 31 * 2 ^ 16 + get_bits func 32 63 * 2 ^ 32 ≡ func
whole func w = ground (
  arith,
  get_bits_lem func 0 15 (omega arith) (omega arith),
  get_bits_lem func 16 31 (omega arith) (omega arith),
  get_bits_lem func 32 63 (omega arith) (omega arith),
)

-- A gate that `idt_add_entry` writes leads to the handler's address, all 64 bits of it, in the
-- kernel's code segment with the given attributes.
pub target-idt_add_entry :
    (idt : List IdtE) (vec func attr : ℕ) (d : IdtE)
    → vec < length idt
    → func < 2 ^ 64
    → let e = get_or (idt_add_entry idt vec func attr) vec d in
      (target e ≡ func) × (e.gdt_select ≡ 8) × (e.attr ≡ attr)
unfolding idt_add_entry gate_of
target-idt_add_entry idt vec func attr d h w =
    subst (λ (e : IdtE). (target e ≡ func) × (e.gdt_select ≡ 8) × (e.attr ≡ attr))
      (sym (get_or-set_self idt vec (gate_of func attr) d h)) (whole func w, refl, refl)
