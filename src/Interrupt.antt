-- ===== src/Interrupt.antt =====
-- src/int/int.cpp: the tables of interrupt handlers. A handler is an address, 0 the null pointer.
pub mod Slots
pub mod Gate
pub mod Frame
pub mod Dispatch
pub mod Start
pub mod Syscall
pub mod Typed
pub mod Faults
pub mod Keys
mod Tests
use cpp_os.Base.{
  ℕ, zero, suc, ◌+◌, ◌-◌, Bool, true, false, List, [], ◌∷◌, leb, ◌==◌, if◌then◌else◌, get_or, set,
}
use cpp_os.Util.Misc.{get_bits}

-- `struct idt_e`
pub record IdtE : Type 0 where
  pub p1 : ℕ
  pub gdt_select : ℕ
  pub ist : ℕ
  pub attr : ℕ
  pub p2 : ℕ
  pub p3 : ℕ
  pub gate_zero : ℕ

-- `void idt_add_entry (u8 vec, void *func, u8 attr)`
unfoldable pub idt_add_entry : List IdtE → ℕ → ℕ → ℕ → List IdtE
idt_add_entry idt vec func attr = set idt vec (record {
  p1 = get_bits func 0 15;
  gdt_select = 8;
  ist = 0;
  attr = attr;
  p2 = get_bits func 16 31;
  p3 = get_bits func 32 63;
  gate_zero = 0;
})

-- `enum int_handler_type`
pub data IntHandlerType : Type 0 where
  normal first reg : IntHandlerType

-- The search of `reg_int_handler` from slot `i` on among `n` slots: the first free one, or 16.
unfoldable pub find_slot : ℕ → List ℕ → ℕ → ℕ
find_slot zero hs i = i
find_slot (suc n) hs i =
    let rest = find_slot n hs (i + 1) in
    if get_or hs i 0 == 0 then i else if leb 15 i then 16 else rest

-- `bool reg_int_handler (u8 vec, int_handler_t handler, int_handler_type type)` on the 16 slots of
-- its vector.
unfoldable pub reg_int_handler : List ℕ → ℕ → IntHandlerType → Bool × List ℕ
reg_int_handler hs handler first =
    if get_or hs 0 0 == 0 then (true, set hs 0 handler) else (false, hs)
reg_int_handler hs handler reg =
    if get_or hs 15 0 == 0 then (true, set hs 15 handler) else (false, hs)
reg_int_handler hs handler normal =
    let i = find_slot 15 hs 1 in if i == 16 then (false, hs) else (true, set hs i handler)

-- `void rem_int_handler (u8 vec, int_handler_t handler)`
unfoldable pub rem_int_handler : List ℕ → ℕ → List ℕ
rem_int_handler [] handler = []
rem_int_handler (h ∷ hs) handler = (if h == handler then 0 else h) ∷ rem_int_handler hs handler

module _ {ℓ} {S : Type ℓ} (run : ℕ → S → S × ℕ) where
  -- The loop of `make_int_handler` and `make_c_int_handler`, from slot `i` on: each handler that
  -- is set runs on the machine's state, and the result of the last slot is returned.
  unfoldable pub run_handlers : List ℕ → ℕ → S → ℕ → S × ℕ
  run_handlers [] i s out = (s, out)
  run_handlers (h ∷ hs) i s out =
      if h == 0
      then run_handlers hs (i + 1) s out
      else (let (s', r) = run h s in run_handlers hs (i + 1) s' (if i == 15 then r else out))
