-- ===== src/Interrupt/Dispatch.antt =====
-- src/int/int.cpp and src/arch/x64/int/int.asm: which handler a vector has, and what it runs.
use cpp_os.Base.{
  ℕ, ◌<◌, ◌≤◌, ◌≡◌, ◌≢◌, ◌⊎◌, Bool, ◌&&◌, ◌||◌, Option, none, some, List, [], ltb, leb, ◌==◌,
  if◌then◌else◌, arith, refl, ap, ◌∙◌, ◌∷◌, ◌+◌, inl, inr, Bool-cases,
}
use cpp_os.Machine.{Write}
use cpp_os.Machine.Pic.{pic_eoi}
use cpp_os.Interrupt.{run_handlers}
use cpp_os.Interrupt.Frame.{Regs, Stacks, irq_handler, c_int_handler}

-- The macro that makes the handler: `make_int_handler`, `make_int_handler_e`, `make_irq_handler` or
-- `make_c_int_handler`.
pub data HandlerKind : Type 0 where
  plain with_error irq entry : HandlerKind

-- `IRQ_TIMER` and `INT_SCHED`
abbrev pub irq_timer : ℕ
irq_timer = 32

abbrev pub int_sched : ℕ
int_sched = 128

-- The list of handlers: those of the hardware's vectors and of the scheduler's.
unfoldable pub hardware_kind : ℕ → Option HandlerKind
hardware_kind vec =
    if leb 33 vec && leb vec 47 then some irq else if vec == int_sched then some entry else none

-- The list up to the timer's.
unfoldable pub kind_of : ℕ → Option HandlerKind
kind_of vec =
    if vec == 8
    then some with_error
    else if leb 10 vec && leb vec 14
    then some with_error
    else if vec == 17
    then some with_error
    else if vec == 30
    then some with_error
    else if leb vec 31
    then some plain
    else if vec == irq_timer
    then some entry
    else hardware_kind vec

-- What a C handler behind an assembly entry is given.
pub record Frames (S : Type 0) : Type 0 where
  pub regs : Regs
  pub thread_regs : Regs
  pub frames : S → ℕ → Regs
  pub stacks : Stacks

-- The handlers in the slots of a vector, in order; 0 is an empty slot.
abbrev pub registered_in : List ℕ → List ℕ
registered_in [] = []
registered_in (h ∷ hs) = if h == 0 then registered_in hs else h ∷ registered_in hs

-- The vectors for which the processor pushes an error code, of those that the table has.
abbrev pub pushes_error : ℕ → Bool
pushes_error vec = (vec == 8) || (leb 10 vec && leb vec 14) || (vec == 17) || (vec == 30)

module _ {S : Type 0} (run : ℕ → ℕ → S → S × ℕ) where
  -- `make_int_handler`: the handlers get 0 for the error; `run` runs one of them.
  unfoldable pub int_handler : List ℕ → S → S
  int_handler hs s = (run_handlers (run 0) hs 0 s 0).0

  -- `make_int_handler_e`
  unfoldable pub int_handler_e : List ℕ → ℕ → S → S
  int_handler_e hs error s = (run_handlers (run error) hs 0 s 0).0

  -- `make_asm_int_handler` and `make_asm_irq_handler` around the C handler; the second tells the
  -- controllers.
  unfoldable pub asm_handler : ℕ → List ℕ → Frames S → S → S × List Write
  asm_handler vec hs f s =
      let (s', regs, stacks, out) =
        c_int_handler (run 0) hs f.regs f.thread_regs f.frames f.stacks s in
      (s', if vec == irq_timer then pic_eoi vec else [])

  -- An interrupt of a vector; `error` is what the processor pushes. `none` is a vector without a handler.
  unfoldable pub handle_as : HandlerKind → ℕ → List ℕ → ℕ → Frames S → S → S × List Write
  handle_as plain vec hs error f s = (int_handler hs s, [])
  handle_as with_error vec hs error f s = (int_handler_e hs error s, [])
  handle_as irq vec hs error f s = irq_handler (run 0) hs vec s
  handle_as entry vec hs error f s = asm_handler vec hs f s

  unfoldable pub dispatch : ℕ → List ℕ → ℕ → Frames S → S → Option (S × List Write)
  dispatch vec hs error f s = elim (kind_of vec) [
    | none ↦ none
    | some kind ↦ some (handle_as kind vec hs error f s)
  ]

  -- The handlers of a list one after the other.
  abbrev pub in_turn : ℕ → List ℕ → S → S
  in_turn error [] s = s
  in_turn error (h ∷ hs) s = in_turn error hs (run error h s).0

  run_handlers-in_turn :
      (error : ℕ) (hs : List ℕ) (i : ℕ) (s : S) (out : ℕ)
      → (run_handlers (run error) hs i s out).0 ≡ in_turn error (registered_in hs) s
  unfolding run_handlers
  run_handlers-in_turn error [] i s out = refl
  run_handlers-in_turn error (h ∷ hs) i s out = elim (Bool-cases (h == 0)) [
    | inl free ↦ rw free (run_handlers-in_turn error hs (i + 1) s out)
    | inr taken ↦ rw taken (run_handlers-in_turn error hs (i + 1) (run error h s).0 _)
  ]

  dispatch_slots :
      (vec : ℕ) (hs : List ℕ) (error : ℕ) (f : Frames S) (s : S)
      → (vec < 48) ⊎ (vec ≡ 128)
      → dispatch vec hs error f s
        ≡ some (
          (run_handlers (run (if pushes_error vec then error else 0)) hs 0 s 0).0,
          if leb 32 vec && ltb vec 48 then pic_eoi vec else [],
        )
  unfolding dispatch handle_as kind_of hardware_kind int_handler int_handler_e asm_handler
      irq_handler c_int_handler
  dispatch_slots vec hs error f s gate = ground arith

  -- The handlers in the slots of a vector that has a gate run one after the other in the order of the slots,
  -- each occupied slot once and the empty ones left out, with the error where the processor pushes one and 0 elsewhere; the controllers are told of the
  -- end of the interrupt exactly for the 16 hardware vectors. A vector without a gate has no handler.
  pub dispatch_lem :
      (vec : ℕ) (hs : List ℕ) (error : ℕ) (f : Frames S) (s : S)
      → ((vec < 48) ⊎ (vec ≡ 128)
          → dispatch vec hs error f s
            ≡ some (
              in_turn (if pushes_error vec then error else 0) (registered_in hs) s,
              if leb 32 vec && ltb vec 48 then pic_eoi vec else [],
            ))
        × (48 ≤ vec → vec ≢ 128 → dispatch vec hs error f s ≡ none)
  unfolding dispatch kind_of hardware_kind
  dispatch_lem vec hs error f s = (
    (λ gate.
        dispatch_slots vec hs error f s gate
        ∙ ap (λ (s' : S). some (s', if leb 32 vec && ltb vec 48 then pic_eoi vec else []))
            (run_handlers-in_turn (if pushes_error vec then error else 0) hs 0 s 0)),
    (λ above other. ground arith),
  )
