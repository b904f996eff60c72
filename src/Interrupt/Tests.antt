-- ===== src/Interrupt/Tests.antt =====
-- The theorems on src/int and src/syscall at small inputs.
use cpp_os.Base.{
  ℕ, zero, suc, replicate, ◌≡◌, ◌≢◌, refl, List, [], ◌∷◌, arith, get_or, ◌≤◌, ◌<◌, ◌⊎◌, ◌+◌, ◌*◌,
  ◌%◌, ◌^◌, length-replicate, some, false, length, inl,
}
use cpp_os.Interrupt.Frame.{IsGate, idt_init, idt_init-IsGate}
use cpp_os.Interrupt.{IdtE, run_handlers}
use cpp_os.Interrupt.Dispatch.{Frames, dispatch, dispatch_lem, irq_timer, int_sched}
use cpp_os.Interrupt.Start.{
  Handlers, init_handlers, no_handlers, init_handlers_lem, irq_keyboard, exc_double_fault,
  exc_page_fault, exc_general_protection_fault,
}
use cpp_os.Driver.Ps2.{Kbd, ps2_int_handler, scan_toc, apply_capslock}
use cpp_os.Interrupt.Typed.{AllTyped, idt_init-AllTyped}
use cpp_os.Interrupt.Keys.{kbd_p, kbd_p-ps2_int_handler}
use cpp_os.Output.{puts}
use cpp_os.Interrupt.Syscall.{
  CallRegs, syscall, syscall_entry, lib_call, thread_block, called, sys_thread_block,
  sys_create_semaphore, syscall_entry-lib_call, syscall_entry-syscall,
}

-- Registers of a program, and arguments that are their places.
abbrev user_regs : CallRegs
user_regs = record {
  rsi = 0;
  rdx = 0;
  rbx = 20;
  r8 = 0;
  r9 = 0;
  rdi = 0;
  rax = 0;
  r12 = 112;
  r13 = 113;
  r14 = 114;
  r15 = 115;
}

syscall_entry-lib_call_example :
    (rest : List ℕ) × (syscall_entry (lib_call user_regs (λ i. 0) (thread_block 3 5000))
      ≡ called sys_thread_block 0 (3 ∷ 5000 ∷ rest))
syscall_entry-lib_call_example = syscall_entry-lib_call user_regs (λ i. 0) (thread_block 3 5000)

syscall_entry-syscall_example :
    syscall_entry (syscall user_regs (1 * 2 ^ 32 + 5) (λ i. i))
    ≡ called sys_create_semaphore 1 (1 ∷ 2 ∷ 3 ∷ 4 ∷ 5 ∷ 10 ∷ 9 ∷ 8 ∷ 7 ∷ 6 ∷ [])
syscall_entry-syscall_example =
    ((syscall_entry-syscall user_regs 5 1 (λ i. i) (omega arith)).2 sys_create_semaphore
        (omega arith) refl).1
      refl

abbrev empty_gate : IdtE
empty_gate = record { p1 = 0; gdt_select = 0; ist = 0; attr = 0; p2 = 0; p3 = 0; gate_zero = 0 }

-- 256 gates, and a handler for each vector.
abbrev empty_table : List IdtE
empty_table = replicate 256 empty_gate

abbrev handler_at : ℕ → ℕ
handler_at v = 0x1000 + v % 256

idt_init-IsGate_example :
    ((v : ℕ)
      → (v < 48) ⊎ (v ≡ 128)
      → IsGate handler_at v (get_or (idt_init empty_table handler_at) v empty_gate))
    × ((v : ℕ)
        → 48 ≤ v
        → v ≢ 128
        → get_or (idt_init empty_table handler_at) v empty_gate ≡ get_or empty_table v empty_gate)
idt_init-IsGate_example =
    idt_init-IsGate empty_table handler_at empty_gate (length-replicate 256 empty_gate)
      (λ v. omega arith)

AllTyped-replicate : (n : ℕ) → AllTyped (replicate n empty_gate)
AllTyped-replicate zero = tt
AllTyped-replicate (suc n) = (
  (omega arith, omega arith, omega arith, omega arith, omega arith, omega arith, omega arith),
  AllTyped-replicate n,
)

idt_init-AllTyped_example :
    (length (idt_init empty_table handler_at) ≡ length empty_table)
    × AllTyped (idt_init empty_table handler_at)
idt_init-AllTyped_example = idt_init-AllTyped empty_table handler_at (AllTyped-replicate 256)

-- Handlers that leave a trace of their addresses.
abbrev trace : ℕ → ℕ → List ℕ → List ℕ × ℕ
trace error h s = (h ∷ error ∷ s, h)

abbrev seven_handlers : Handlers
seven_handlers = record {
  timer_irq_handler = 101;
  double_fault = 102;
  page_fault = 103;
  sched_time_handler = 104;
  sched_int_handler = 105;
  ps2_int_handler = 106;
  kbd_p = 107;
}

init_handlers_lem_example :
    let handle : ℕ → List ℕ × ℕ =
      λ v. run_handlers (trace 0) (init_handlers seven_handlers no_handlers v) 0 [] 0 in
    (handle irq_timer ≡ (104 ∷ 0 ∷ 101 ∷ 0 ∷ [], 104))
    × (handle int_sched ≡ (105 ∷ 0 ∷ [], 105))
    × (handle irq_keyboard ≡ (107 ∷ 0 ∷ 106 ∷ 0 ∷ [], 0))
    × (handle exc_double_fault ≡ (102 ∷ 0 ∷ [], 0))
    × (handle exc_page_fault ≡ (103 ∷ 0 ∷ [], 0))
    × (handle exc_general_protection_fault ≡ (103 ∷ 0 ∷ [], 0))
    × ((v : ℕ)
        → v ≢ irq_timer
        → v ≢ int_sched
        → v ≢ irq_keyboard
        → v ≢ exc_double_fault
        → v ≢ exc_page_fault
        → v ≢ exc_general_protection_fault
        → handle v ≡ ([], 0))
init_handlers_lem_example =
    init_handlers_lem (trace 0) seven_handlers []
      (omega arith, omega arith, omega arith, omega arith, omega arith, omega arith, omega arith)

abbrev trace_frames : Frames (List ℕ)
trace_frames = record {
  regs = record { cs = 8; kernel_rsp = 0; call_save_rsp = 0 };
  thread_regs = record { cs = 8; kernel_rsp = 64; call_save_rsp = 128 };
  frames = λ s out. record { cs = 8; kernel_rsp = out; call_save_rsp = out };
  stacks = record { call_rsp = 0; call_save_rsp = 0; rsp0 = 0 };
}

-- A page fault with two handlers; what ran last is in front.
dispatch_lem_example :
    dispatch trace 14 (104 ∷ 0 ∷ 103 ∷ []) 6 trace_frames [] ≡ some (103 ∷ 6 ∷ 104 ∷ 6 ∷ [], [])
dispatch_lem_example =
    (dispatch_lem trace 14 (104 ∷ 0 ∷ 103 ∷ []) 6 trace_frames []).0 (inl (omega arith))

-- The keyboard when everything up to the code at 4 was read.
abbrev drained_ring : Kbd
drained_ring = record {
  scancode_buf = replicate 32 0x1e;
  scan_i = 5;
  read_i = 4;
  status = record { shift = 0; capslock = false; numlock = false };
  fresh = false;
}

typed_a : scan_toc drained_ring.status 0x1e ≡ 97
unfolding scan_toc apply_capslock
typed_a = refl

kbd_p-ps2_int_handler_example :
    kbd_p (ps2_int_handler drained_ring 0x1e)
    ≡ some (
      puts (scan_toc drained_ring.status 0x1e ∷ []) ∷ [],
      record (ps2_int_handler drained_ring 0x1e) { read_i = 5; fresh = false },
    )
kbd_p-ps2_int_handler_example =
    kbd_p-ps2_int_handler drained_ring 0x1e (refl, omega arith, omega arith) refl refl
      (ground (arith, typed_a))
