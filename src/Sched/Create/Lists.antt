-- ===== src/Sched/Create/Lists.antt =====
-- The lists that a new thread and the threads of a process that ends stand in.
use cpp_os.Base.{
  IsIn, ℕ, ◌+◌, ◌%◌, ◌^◌, ◌<◌, ◌≡◌, ◌≢◌, refl, ap, ◌∙◌, inl, inr, true, List, [], ◌∷◌, ◌==◌, arith,
  Bool-cases, ==→ne, ==→eq,
}
use cpp_os.Sched.Thread.{Sched, Cpu, move_to, block, t_ready, t_destroy, t_semaphore_wait}
use cpp_os.Sched.Thread.Placed.{count, IsPlaced, count-append, move_to-IsPlaced}
use cpp_os.Sched.Thread.Switch.{AllPlaced}
use cpp_os.Sched.Create.{
  Stacks, init_stacks, init_lists, kstack_size_default, destroy_threads, destroy_one,
}

-- A thread that is new stands in no list.
abbrev pub IsNew : Sched → ℕ → Type 0
IsNew s t = (k : ℕ) → k ≢ t_semaphore_wait → count t (s.t_list k) ≡ 0

-- A new thread: with the idle thread made, where every other thread stands in the list of its state,
-- so does every thread afterwards, the new one on the ready list; its stack pointer is 8 below a
-- multiple of 16, as the calling convention wants, for a stack and a size that are multiples of 16 and
-- do not wrap; it starts at the function; and for a user's thread the kernel's stack pointer is the
-- end of the second stack.
pub init_lists-AllPlaced :
    (s : Sched) (t : ℕ) (raw : Stacks) (uid func stack kstack : ℕ)
    → IsNew s t
    → ((u : ℕ) → u ≢ t → IsPlaced s u)
    → stack % 16 ≡ 0
    → raw.stack_size % 16 ≡ 0
    → 0 < raw.stack_size
    → stack + raw.stack_size < 2 ^ 64
    → kstack + kstack_size_default < 2 ^ 64
    → let st = init_stacks raw uid func stack kstack in
      AllPlaced (init_lists true s t)
      × (((init_lists true s t).threads t).state ≡ t_ready)
      × (st.regs.rsp % 16 ≡ 8)
      × (st.regs.rip ≡ func)
      × (uid ≢ 0 → st.regs.kernel_rsp ≡ st.kstack_start + st.kstack_size)
unfolding init_lists init_stacks
init_lists-AllPlaced s t raw uid func stack kstack new others align align' size fits fits' = (
  (λ u k ne. elim (Bool-cases (u == t)) [
    | inl same ↦
        ground (
          arith,
          new k,
          count-append t (s.t_list k) t,
          ==→eq u t same,
          count-append u (s.t_list k) t,
        )
    | inr other ↦ ground (arith, others u (==→ne u t other) k ne, count-append u (s.t_list k) t)
  ]),
  ground arith,
  omega arith,
  refl,
  λ ne. ground arith,
)

block-other : (s : Sched) (t k : ℕ) (cpu : Cpu) → t ≢ s.thread_c → block s t k cpu ≡ move_to s t k
unfolding block move_to
block-other s t k cpu ne = ground arith

pub move_to-state :
    (s : Sched) (t k u : ℕ)
    → ((move_to s t k).thread_c ≡ s.thread_c)
      × (((move_to s t k).threads t).state ≡ k)
      × (u ≢ t → ((move_to s t k).threads u).state ≡ (s.threads u).state)
unfolding move_to
move_to-state s t k u = ground arith

pub still_destroyed :
    (s : Sched) (t u : ℕ)
    → (s.threads u).state ≡ t_destroy
    → ((move_to s t t_destroy).threads u).state ≡ t_destroy
still_destroyed s t u h = elim (Bool-cases (u == t)) [
  | inl e ↦
      ap (λ (v : ℕ). ((move_to s t t_destroy).threads v).state) (==→eq u t e)
      ∙ (move_to-state s t t_destroy u).1
  | inr ne ↦ (move_to-state s t t_destroy u).2 (==→ne u t ne) ∙ h
]

-- One round of the destructor.
destroy_one_lem :
    (s : Sched) (t : ℕ) (cpu : Cpu)
    → AllPlaced s
    → let s' = destroy_one s t cpu in
      AllPlaced s'
      × (s'.thread_c ≡ s.thread_c)
      × (t ≢ s.thread_c → (s'.threads t).state ≡ t_destroy)
      × ((u : ℕ) → (s.threads u).state ≡ t_destroy → (s'.threads u).state ≡ t_destroy)
unfolding destroy_one
destroy_one_lem s t cpu p = elim (Bool-cases (t == s.thread_c)) [
  | inl own ↦ rw own (p, refl, (λ ne. absurd (ne (==→eq t s.thread_c own))), λ u h. h)
  | inr other ↦
      rw (other, block-other s t t_destroy cpu (==→ne t s.thread_c other))
        (
          (λ u. move_to-IsPlaced s t t_destroy u (p t) (p u)),
          (move_to-state s t t_destroy 0).0,
          (λ ne. (move_to-state s t t_destroy 0).1),
          λ u h. still_destroyed s t u h,
        )
]

-- A thread that is to be deleted stays so.
pub destroy_threads-keeps :
    (ts : List ℕ) (s : Sched) (cpu : Cpu)
    → AllPlaced s
    → (u : ℕ) → (s.threads u).state ≡ t_destroy
    → ((destroy_threads ts s cpu).threads u).state ≡ t_destroy
unfolding destroy_threads
destroy_threads-keeps [] s cpu p u h = h
destroy_threads-keeps (t ∷ ts) s cpu p u h =
    let (q, _, _, keep) = destroy_one_lem s t cpu p in
    destroy_threads-keeps ts (destroy_one s t cpu) cpu q u (keep u h)

-- The loop over the threads of a process that ends: every thread of it but the running one is to be deleted,
-- whatever list it stood in before, the running thread is the same, and every thread stands in the list of
-- its state, where it did so before.
pub destroy_threads-AllPlaced :
    (ts : List ℕ) (s : Sched) (cpu : Cpu)
    → AllPlaced s
    → let s' = destroy_threads ts s cpu in
      AllPlaced s'
      × (s'.thread_c ≡ s.thread_c)
      × ((t : ℕ) → IsIn t ts → t ≢ s.thread_c → (s'.threads t).state ≡ t_destroy)
unfolding destroy_threads
destroy_threads-AllPlaced [] s cpu p = (p, refl, λ t i. absurd i)
destroy_threads-AllPlaced (t ∷ ts) s cpu p =
    let (q, c, here, _) = destroy_one_lem s t cpu p in
    let (placed, c', all) = destroy_threads-AllPlaced ts (destroy_one s t cpu) cpu q in
    (
      placed,
      c' ∙ c,
      λ u i ne. elim i [
        | inl e ↦ destroy_threads-keeps ts (destroy_one s t cpu) cpu q u (
            ap (λ (v : ℕ). ((destroy_one s t cpu).threads v).state) e
            ∙ here (λ same. ne (e ∙ same)))
        | inr j ↦ all u j (λ same. ne (same ∙ c))
      ],
    )
