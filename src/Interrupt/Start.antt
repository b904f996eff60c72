-- ===== src/Interrupt/Start.antt =====
-- The handlers that the start-up registers: src/init.cpp, with src/time/pit.cpp, src/sched/thread.cpp and
-- src/driver/ps2.cpp.
use cpp_os.Base.{
  ℕ, ◌+◌, ◌≡◌, ◌≢◌, refl, false, List, [], ◌∷◌, ◌==◌, if◌then◌else◌, ne→==, ap, ◌∙◌, inl, inr,
  Bool-cases,
}
use cpp_os.Interrupt.{IntHandlerType, normal, first, reg, find_slot, reg_int_handler, run_handlers}
use cpp_os.Interrupt.Dispatch.{irq_timer, int_sched}

-- `int_handlers`: the slots of each vector.
abbrev pub Tables : Type 0
Tables = ℕ → List ℕ

-- A registration whose result is not looked at.
unfoldable pub registered : Tables → ℕ → ℕ → IntHandlerType → Tables
registered tables vec handler type v =
    if v == vec then (reg_int_handler (tables v) handler type).1 else tables v

-- `EXC_DOUBLE_FAULT`, `EXC_GENERAL_PROTECTION_FAULT`, `EXC_PAGE_FAULT` and `IRQ_KEYBOARD`
abbrev pub exc_double_fault : ℕ
exc_double_fault = 8

abbrev pub exc_general_protection_fault : ℕ
exc_general_protection_fault = 13

abbrev pub exc_page_fault : ℕ
exc_page_fault = 14

abbrev pub irq_keyboard : ℕ
irq_keyboard = 33

-- The addresses of the handlers.
pub record Handlers : Type 0 where
  pub timer_irq_handler : ℕ
  pub double_fault : ℕ
  pub page_fault : ℕ
  pub sched_time_handler : ℕ
  pub sched_int_handler : ℕ
  pub ps2_int_handler : ℕ
  pub kbd_p : ℕ

-- `u8 init (void *mb2_table)` on the table of the handlers: `time_init`, its own three, `sched::init`,
-- `kbd_init` and the printing of keys.
unfoldable pub init_handlers : Handlers → Tables → Tables
init_handlers h t₀ =
    let t₁ = registered t₀ irq_timer h.timer_irq_handler first in
    let t₂ = registered t₁ exc_double_fault h.double_fault first in
    let t₃ = registered t₂ exc_page_fault h.page_fault normal in
    let t₄ = registered t₃ exc_general_protection_fault h.page_fault normal in
    let t₅ = registered t₄ irq_timer h.sched_time_handler reg in
    let t₆ = registered t₅ int_sched h.sched_int_handler reg in
    let t₇ = registered t₆ irq_keyboard h.ps2_int_handler first in
    registered t₇ irq_keyboard h.kbd_p normal

-- The table before the start-up: 16 null pointers for each vector.
abbrev pub no_handlers : Tables
no_handlers v = 0 ∷ 0 ∷ 0 ∷ 0 ∷ 0 ∷ 0 ∷ 0 ∷ 0 ∷ 0 ∷ 0 ∷ 0 ∷ 0 ∷ 0 ∷ 0 ∷ 0 ∷ 0 ∷ []

abbrev pub AllSet : Handlers → Type 0
AllSet h =
    (h.timer_irq_handler ≢ 0)
    × (h.double_fault ≢ 0)
    × (h.page_fault ≢ 0)
    × (h.sched_time_handler ≢ 0)
    × (h.sched_int_handler ≢ 0)
    × (h.ps2_int_handler ≢ 0)
    × (h.kbd_p ≢ 0)

abbrev behind : ℕ → List ℕ
behind c = 0 ∷ 0 ∷ 0 ∷ 0 ∷ 0 ∷ 0 ∷ 0 ∷ 0 ∷ 0 ∷ 0 ∷ 0 ∷ 0 ∷ 0 ∷ c ∷ []

-- Slots of which one, or two, are taken.
abbrev in_front : ℕ → ℕ → ℕ → List ℕ
in_front a b c = a ∷ b ∷ behind c

module _ (h : Handlers) where
  timer_slots :
      init_handlers h no_handlers irq_timer ≡ in_front h.timer_irq_handler 0 h.sched_time_handler
  unfolding init_handlers registered reg_int_handler
  timer_slots = refl

  sched_slots : init_handlers h no_handlers int_sched ≡ in_front 0 0 h.sched_int_handler
  unfolding init_handlers registered reg_int_handler
  sched_slots = refl

  key_slots : init_handlers h no_handlers irq_keyboard ≡ in_front h.ps2_int_handler h.kbd_p 0
  unfolding init_handlers registered reg_int_handler find_slot
  key_slots = refl

  double_slots : init_handlers h no_handlers exc_double_fault ≡ in_front h.double_fault 0 0
  unfolding init_handlers registered reg_int_handler
  double_slots = refl

  page_slots : init_handlers h no_handlers exc_page_fault ≡ in_front 0 h.page_fault 0
  unfolding init_handlers registered reg_int_handler find_slot
  page_slots = refl

  general_slots :
      init_handlers h no_handlers exc_general_protection_fault ≡ in_front 0 h.page_fault 0
  unfolding init_handlers registered reg_int_handler find_slot
  general_slots = refl

registered_other :
    (t : Tables) (v vec handler : ℕ) (type : IntHandlerType)
    → v ≢ vec
    → registered t vec handler type v ≡ t v
unfolding registered
registered_other t v vec handler type ne = rw (ne→== v vec ne) refl

other_slots :
    (h : Handlers) (v : ℕ)
    → v ≢ irq_timer
    → v ≢ int_sched
    → v ≢ irq_keyboard
    → v ≢ exc_double_fault
    → v ≢ exc_page_fault
    → v ≢ exc_general_protection_fault
    → init_handlers h no_handlers v ≡ in_front 0 0 0
unfolding init_handlers
other_slots h v timer sched key double page general =
    registered_other _ v _ _ _ key
    ∙ registered_other _ v _ _ _ key
    ∙ registered_other _ v _ _ _ sched
    ∙ registered_other _ v _ _ _ timer
    ∙ registered_other _ v _ _ _ general
    ∙ registered_other _ v _ _ _ page
    ∙ registered_other _ v _ _ _ double
    ∙ registered_other _ v _ _ _ timer

module _ {S : Type 0} (run : ℕ → S → S × ℕ) (s : S) where
  ran : ℕ → S → S
  ran a s = if a == 0 then s else (run a s).0

  run_early :
      (h i out : ℕ) (hs : List ℕ) (s : S)
      → (i == 15) ≡ false
      → run_handlers run (h ∷ hs) i s out ≡ run_handlers run hs (i + 1) (ran h s) out
  unfolding run_handlers ran
  run_early h i out hs s early = elim (Bool-cases (h == 0)) [
    | inl null ↦ rw null refl
    | inr set_one ↦ rw (set_one, early) refl
  ]

  run_last :
      (h : ℕ) (s : S) → run_handlers run (h ∷ []) 15 s 0 ≡ (if h == 0 then (s, 0) else run h s)
  unfolding run_handlers
  run_last h s = elim (Bool-cases (h == 0)) [
    | inl null ↦ rw null refl
    | inr set_one ↦ rw set_one refl
  ]

  -- The handlers of one vector.
  ran_slots :
      (hs : List ℕ) (a b c : ℕ)
      → hs ≡ in_front a b c
      → run_handlers run hs 0 s 0
        ≡ (let s' = ran b (ran a s) in if c == 0 then (s', 0) else run c s')
  unfolding run_handlers
  ran_slots hs a b c e =
      ap (λ l. run_handlers run l 0 s 0) e
      ∙ run_early a 0 0 (b ∷ behind c) s refl
      ∙ run_early b 1 0 (behind c) (ran a s) refl
      ∙ run_last c (ran b (ran a s))

-- What the start-up's table runs for each vector, at addresses that are not null. The timer's interrupt
-- advances the clock, then runs the scheduler, and it returns the frame that the scheduler chose; a key
-- is stored before it is printed; a general protection fault runs the handler of the page fault;
-- the vectors that are not named run nothing.
pub init_handlers_lem :
    {S : Type 0} (run : ℕ → S → S × ℕ) (h : Handlers) (s : S)
    → AllSet h
    → let handle : ℕ → S × ℕ = λ v. run_handlers run (init_handlers h no_handlers v) 0 s 0 in
      (handle irq_timer ≡ run h.sched_time_handler (run h.timer_irq_handler s).0)
      × (handle int_sched ≡ run h.sched_int_handler s)
      × (handle irq_keyboard ≡ ((run h.kbd_p (run h.ps2_int_handler s).0).0, 0))
      × (handle exc_double_fault ≡ ((run h.double_fault s).0, 0))
      × (handle exc_page_fault ≡ ((run h.page_fault s).0, 0))
      × (handle exc_general_protection_fault ≡ ((run h.page_fault s).0, 0))
      × ((v : ℕ)
          → v ≢ irq_timer
          → v ≢ int_sched
          → v ≢ irq_keyboard
          → v ≢ exc_double_fault
          → v ≢ exc_page_fault
          → v ≢ exc_general_protection_fault
          → handle v ≡ (s, 0))
unfolding ran
init_handlers_lem run h s (timer, double, page, time, int, ps2, key) = (
  ran_slots run s _ _ _ _ (timer_slots h) ∙ rw (ne→== _ 0 timer, ne→== _ 0 time) refl,
  ran_slots run s _ _ _ _ (sched_slots h) ∙ rw (ne→== _ 0 int) refl,
  ran_slots run s _ _ _ _ (key_slots h) ∙ rw (ne→== _ 0 ps2, ne→== _ 0 key) refl,
  ran_slots run s _ _ _ _ (double_slots h) ∙ rw (ne→== _ 0 double) refl,
  ran_slots run s _ _ _ _ (page_slots h) ∙ rw (ne→== _ 0 page) refl,
  ran_slots run s _ _ _ _ (general_slots h) ∙ rw (ne→== _ 0 page) refl,
  λ v a b c d e f. ran_slots run s _ 0 0 0 (other_slots h v a b c d e f),
)
