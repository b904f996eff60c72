-- ===== src/Machine/Irq.antt =====
-- src/arch/x64/common.cpp: the nesting of disabled interrupts.
use cpp_os.Base.{
  ℕ, ◌+◌, ◌-◌, ◌%◌, ◌^◌, ◌<◌, ◌≤◌, ◌≡◌, Bool, true, false, List, [], ◌∷◌, length, ◌==◌,
  if◌then◌else◌, max, arith, refl,
}

-- `irq_c`, and the processor's interrupt flag.
pub record Irq : Type 0 where
  pub irq_c : ℕ
  pub enabled : Bool

-- Interrupts start disabled.
abbrev pub at_boot : Irq
at_boot = record { irq_c = 1; enabled = false }

-- `void sti_safe ()`
unfoldable pub sti_safe : Irq → Irq
sti_safe s =
    let c = max s.irq_c 1 - 1 in record { irq_c = c; enabled = if c == 0 then true else s.enabled }

-- `void cli_safe ()`
unfoldable pub cli_safe : Irq → Irq
cli_safe s = record { irq_c = (s.irq_c + 1) % 2 ^ 32; enabled = false }

pub data IrqCall : Type 0 where
  sti cli : IrqCall

abbrev pub irq_calls : Irq → List IrqCall → Irq
irq_calls s [] = s
irq_calls s (sti ∷ cs) = irq_calls (sti_safe s) cs
irq_calls s (cli ∷ cs) = irq_calls (cli_safe s) cs

-- Between the calls: interrupts are on exactly while the count is 0.
abbrev pub IsBalanced : Irq → Type 0
IsBalanced s = s.enabled ≡ (s.irq_c == 0)

irq_calls-IsBalanced :
    (cs : List IrqCall) (s : Irq)
    → s.irq_c + length cs < 2 ^ 32
    → IsBalanced s
    → IsBalanced (irq_calls s cs) × ((irq_calls s cs).irq_c ≤ s.irq_c + length cs)
unfolding sti_safe cli_safe
irq_calls-IsBalanced [] s h b = (b, omega arith)
irq_calls-IsBalanced (sti ∷ cs) s h b = ground (arith, irq_calls-IsBalanced cs (sti_safe s))
irq_calls-IsBalanced (cli ∷ cs) s h b = ground (arith, irq_calls-IsBalanced cs (cli_safe s))

-- After any sequence of fewer than 2 ^ 32 - 1 calls from boot on, interrupts are enabled exactly if
-- the count of `cli_safe` calls without their `sti_safe` is 0.
pub enabled-irq_calls :
    (cs : List IrqCall)
    → length cs < 2 ^ 32 - 1
    → (irq_calls at_boot cs).enabled ≡ ((irq_calls at_boot cs).irq_c == 0)
enabled-irq_calls cs h = (irq_calls-IsBalanced cs at_boot (omega arith) refl).0

-- A section between `cli_safe` and `sti_safe` with interrupts off before it leaves them off.
pub irq_calls_nested :
    (s : Irq) → 0 < s.irq_c → s.irq_c < 2 ^ 32 - 1 → IsBalanced s → irq_calls s (cli ∷ sti ∷ []) ≡ s
unfolding sti_safe cli_safe
irq_calls_nested s h w b = ground arith
