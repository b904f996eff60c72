-- ===== src/Interrupt/Frame.antt =====
-- src/int/int.cpp: the table of gates and what the handlers of a vector do around the loop.
use cpp_os.Base.{
  ℕ, zero, suc, ◌+◌, ◌<◌, ◌≤◌, ◌≡◌, ◌≢◌, refl, ◌∙◌, sym, inl, inr, ◌⊎◌, List, [], ◌∷◌, ◌==◌,
  if◌then◌else◌, length, get_or, bit_and, arith, Bool-cases, length-set, get_or-set_ne, ==→eq,
  ==→ne, ◌^◌, subst,
}
use cpp_os.Machine.Pic.{pic_eoi}
use cpp_os.Machine.{Write}
use cpp_os.Interrupt.{IdtE, idt_add_entry, run_handlers}
use cpp_os.Interrupt.Gate.{target, target-idt_add_entry}

-- The vectors of `idt_init` in order: `n` of them from `v` on, and INT_SCHED.
abbrev pub vectors_from : ℕ → ℕ → List ℕ
vectors_from zero v = 128 ∷ []
vectors_from (suc n) v = v ∷ vectors_from n (v + 1)

abbrev pub idt_vectors : List ℕ
idt_vectors = vectors_from 48 0

-- `reg_b_handler` and, for vector 17, `reg_b_handler_trap`.
abbrev pub gate_attr : ℕ → ℕ
gate_attr vec = if vec == 17 then 0x8f else 0x8e

-- `void idt_init ()`, less the loading of the table; `handler` gives the addresses of the handlers.
unfoldable pub add_gates : List IdtE → (ℕ → ℕ) → List ℕ → List IdtE
add_gates idt handler [] = idt
add_gates idt handler (v ∷ vs) =
    add_gates (idt_add_entry idt v (handler v) (gate_attr v)) handler vs

unfoldable pub idt_init : List IdtE → (ℕ → ℕ) → List IdtE
idt_init idt handler = add_gates idt handler idt_vectors

-- The registers that a C handler gets or returns.
pub record Regs : Type 0 where
  pub cs : ℕ
  pub kernel_rsp : ℕ
  pub call_save_rsp : ℕ

-- `kdata::data` and `tss.rsp0`
pub record Stacks : Type 0 where
  pub call_rsp : ℕ
  pub call_save_rsp : ℕ
  pub rsp0 : ℕ

module _ {ℓ} {S : Type ℓ} (run : ℕ → S → S × ℕ) where
  -- `make_irq_handler`: the handlers, and the end of the interrupt told to the controllers.
  -- `make_int_handler` and `make_int_handler_e` are the loop alone.
  unfoldable pub irq_handler : List ℕ → ℕ → S → S × List Write
  irq_handler hs vec s = ((run_handlers run hs 0 s 0).0, pic_eoi vec)

  -- `make_c_int_handler`: the saved stacks of the running thread go into the frame of a user's
  -- interrupt, and the stacks of the frame that is returned into the processor's data. The result is
  -- the state, the frame at `frame`, the new stacks and the returned frame, or null.
  unfoldable pub c_int_handler :
      List ℕ → Regs → Regs → (S → ℕ → Regs) → Stacks → S → S × Regs × Stacks × ℕ
  c_int_handler hs regs thread_regs frames stacks s =
      let regs' =
        (if bit_and regs.cs 3 == 0 then regs else record regs {
          kernel_rsp = thread_regs.kernel_rsp;
          call_save_rsp = thread_regs.call_save_rsp;
        }) in
      let (s', out) = run_handlers run hs 0 s 0 in
      let r = frames s' out in
      let stacks' =
        (if out == 0 then stacks else record {
          call_rsp = r.kernel_rsp;
          call_save_rsp = r.call_save_rsp;
          rsp0 = r.kernel_rsp;
        }) in
      (s', regs', stacks', out)

-- The vector is one of the list.
abbrev pub IsIn : ℕ → List ℕ → Type 0
IsIn v [] = ⊥
IsIn v (w ∷ ws) = (v ≡ w) ⊎ IsIn v ws

length-idt_add_entry : (idt : List IdtE) (v f a : ℕ) → length (idt_add_entry idt v f a) ≡ length idt
unfolding idt_add_entry
length-idt_add_entry idt v f a = length-set idt v _

-- A gate of a vector behind the ones that are added stays.
get_or-add_gates :
    (vs : List ℕ) (idt : List IdtE) (handler : ℕ → ℕ) (v : ℕ) (d : IdtE)
    → ¬ IsIn v vs
    → get_or (add_gates idt handler vs) v d ≡ get_or idt v d
unfolding add_gates idt_add_entry
get_or-add_gates [] idt handler v d out = refl
get_or-add_gates (w ∷ ws) idt handler v d out =
    get_or-add_gates ws _ handler v d (λ i. out (inr i))
    ∙ get_or-set_ne idt w v _ d (λ e. out (inl (sym e)))

IsIn-cases : (v : ℕ) (ws : List ℕ) → IsIn v ws ⊎ ¬ IsIn v ws
IsIn-cases v [] = inr (λ i. i)
IsIn-cases v (w ∷ ws) = elim (Bool-cases (v == w)) [
  | inl e ↦ inl (inl (==→eq v w e))
  | inr ne ↦ elim (IsIn-cases v ws) [
    | inl i ↦ inl (inr i)
    | inr out ↦ inr (λ i. elim i [ inl e ↦ ==→ne v w ne e | inr j ↦ out j ])
  ]
]

-- A gate leads to the handler of a vector.
abbrev pub IsGate : (ℕ → ℕ) → ℕ → IdtE → Type 0
IsGate handler v e = (target e ≡ handler v) × (e.gdt_select ≡ 8) × (e.attr ≡ gate_attr v)

add_gates-IsGate :
    (vs : List ℕ) (idt : List IdtE) (handler : ℕ → ℕ) (v : ℕ) (d : IdtE)
    → v < length idt
    → handler v < 2 ^ 64
    → IsIn v vs
    → IsGate handler v (get_or (add_gates idt handler vs) v d)
unfolding add_gates
add_gates-IsGate [] idt handler v d h w i = absurd i
add_gates-IsGate (x ∷ xs) idt handler v d h w i = elim (IsIn-cases v xs) [
  | inl again ↦
      add_gates-IsGate xs (idt_add_entry idt x (handler x) (gate_attr x)) handler v d
        (omega (arith, h, length-idt_add_entry idt x (handler x) (gate_attr x))) w again
  | inr last ↦ elim i [
    | inr later ↦ absurd (last later)
    | inl here ↦
        subst (IsGate handler v)
          (sym
            (get_or-add_gates xs (idt_add_entry idt x (handler x) (gate_attr x)) handler v d last))
          (subst
            (λ (y : ℕ).
              IsGate handler v (get_or (idt_add_entry idt y (handler y) (gate_attr y)) v d))
            here (target-idt_add_entry idt v (handler v) (gate_attr v) d h w))
  ]
]

IsIn-vectors_from : (n k v : ℕ) → ((k ≤ v) × (v < k + n)) ⊎ (v ≡ 128) → IsIn v (vectors_from n k)
IsIn-vectors_from zero k v (inl (lo, hi)) = absurd (omega arith)
IsIn-vectors_from zero k v (inr e) = inl e
IsIn-vectors_from (suc n) k v (inr e) = inr (IsIn-vectors_from n (k + 1) v (inr e))
IsIn-vectors_from (suc n) k v (inl (lo, hi)) = elim (Bool-cases (v == k)) [
  | inl e ↦ inl (==→eq v k e)
  | inr ne ↦ inr (IsIn-vectors_from n (k + 1) v (inl (ground arith, omega arith)))
]

vectors_from-IsIn : (n k v : ℕ) → IsIn v (vectors_from n k) → ((k ≤ v) × (v < k + n)) ⊎ (v ≡ 128)
vectors_from-IsIn zero k v (inl e) = inr e
vectors_from-IsIn zero k v (inr i) = absurd i
vectors_from-IsIn (suc n) k v (inl e) = inl (omega arith, omega arith)
vectors_from-IsIn (suc n) k v (inr i) = elim (vectors_from-IsIn n (k + 1) v i) [
  | inl (lo, hi) ↦ inl (omega arith, omega arith)
  | inr e ↦ inr e
]

-- The table that `idt_init` leaves. The gate of each vector below 48, and of 128, leads to all 64 bits
-- of its handler's address, in the kernel's code segment, with the attributes of an interrupt gate, or
-- of a trap gate for vector 17; every other gate is as it was.
pub idt_init-IsGate :
    (idt : List IdtE) (handler : ℕ → ℕ) (d : IdtE)
    → length idt ≡ 256
    → ((v : ℕ) → handler v < 2 ^ 64)
    → ((v : ℕ) → (v < 48) ⊎ (v ≡ 128) → IsGate handler v (get_or (idt_init idt handler) v d))
      × ((v : ℕ) → 48 ≤ v → v ≢ 128 → get_or (idt_init idt handler) v d ≡ get_or idt v d)
unfolding idt_init
idt_init-IsGate idt handler d len w = (
  λ v c.
      add_gates-IsGate idt_vectors idt handler v d (below v c) (w v)
        (IsIn-vectors_from 48 0 v (start v c)),
  λ v lo ne.
      get_or-add_gates idt_vectors idt handler v d
        (λ i. elim (vectors_from-IsIn 48 0 v i) [ inl (a, b) ↦ omega arith | inr e ↦ ne e ]),
)
  where
    below : (v : ℕ) → (v < 48) ⊎ (v ≡ 128) → v < length idt
    below v (inl h) = omega (arith, len)
    below v (inr h) = omega (arith, len)

    start : (v : ℕ) → (v < 48) ⊎ (v ≡ 128) → ((0 ≤ v) × (v < 0 + 48)) ⊎ (v ≡ 128)
    start v (inl h) = inl (omega arith, omega arith)
    start v (inr h) = inr h

-- What the code relies on of a frame, and what a handler that switches threads leaves: the stacks in
-- the processor's data are those of the frame that is returned, if one is, and stay if none is; the
-- frame of a user's interrupt has the running thread's stacks, and a kernel's is left alone.
module _ {ℓ} {S : Type ℓ} (run : ℕ → S → S × ℕ) where
  pub c_int_handler_lem :
      (hs : List ℕ) (regs thread_regs : Regs) (frames : S → ℕ → Regs) (stacks : Stacks) (s : S)
      → let (s', regs', stacks', out) = c_int_handler run hs regs thread_regs frames stacks s in
        (out ≡ 0 → stacks' ≡ stacks)
        × (out ≢ 0
            → (stacks'.rsp0 ≡ (frames s' out).kernel_rsp)
              × (stacks'.call_rsp ≡ stacks'.rsp0)
              × (stacks'.call_save_rsp ≡ (frames s' out).call_save_rsp))
        × (regs'.cs ≡ regs.cs)
  unfolding c_int_handler
  c_int_handler_lem hs regs thread_regs frames stacks s = ground arith
