-- ===== src/Sched/Create/Ended.antt =====
-- A process that ends: `~process ()` of src/sched/process.cpp.
use cpp_os.Base.{
  IsIn, ℕ, ◌≡◌, ◌≢◌, refl, sym, ap, ◌∙◌, inl, inr, Bool, true, false, List, [], ◌∷◌, ◌==◌,
  if◌then◌else◌, arith, Bool-cases, ==_refl,
}
use cpp_os.Sched.Thread.{
  Thread, Sched, Cpu, set_thread, move_to, block, update_time, take_ready, switch_to, load_space,
  switch, schedule, int_sched, sched_int_handler, t_running, t_ready, t_destroy,
}
use cpp_os.Sched.Thread.Placed.{count, move_to-IsPlaced}
use cpp_os.Sched.Thread.Switch.{AllPlaced, schedule-AllPlaced}
use cpp_os.Sched.Semaphore.{Semaphore, reset_destroy, destroy_all}
use cpp_os.Sched.Create.{Stacks, destroy_semaphores, destroy_threads, mark_dead, destroy_process}
use cpp_os.Sched.Create.Lists.{move_to-state, still_destroyed, destroy_threads-AllPlaced}

-- A thread that is to be deleted is not the one that is taken from the ready list.
take_ready-keeps :
    (s : Sched) (l : List ℕ) (u : ℕ)
    → s.t_list t_ready ≡ l
    → AllPlaced s
    → (s.threads u).state ≡ t_destroy
    → ((take_ready s l).threads u).state ≡ t_destroy
unfolding take_ready switch_to
take_ready-keeps s [] u e p h = h
take_ready-keeps s (next ∷ rest) u e p h = ground (arith, p u t_ready, ap (count u) e, h)

load_space-threads : (s : Sched) (saved : ℕ) → (load_space s saved).threads ≡ s.threads
unfolding load_space
load_space-threads s saved = ground arith

taken-keeps :
    (b : Sched) (saved u : ℕ)
    → AllPlaced b
    → (b.threads u).state ≡ t_destroy
    → ((load_space (take_ready b (b.t_list t_ready)) saved).threads u).state ≡ t_destroy
taken-keeps b saved u p h =
    ap (λ (f : ℕ → Thread). (f u).state)
      (load_space-threads (take_ready b (b.t_list t_ready)) saved)
    ∙ take_ready-keeps b (b.t_list t_ready) u refl p h

charged :
    (s : Sched) (now u : ℕ)
    → AllPlaced s
    → AllPlaced (update_time s now) × (((update_time s now).threads u).state ≡ (s.threads u).state)
unfolding update_time
charged s now u p = ((λ t k ne. ground (arith, p t k ne)), ground arith)

switch-keeps :
    (s : Sched) (now u : ℕ)
    → AllPlaced s
    → (s.threads u).state ≡ t_destroy
    → ((switch s now).threads u).state ≡ t_destroy
unfolding switch
switch-keeps s now u p h =
    let s₁ = update_time s now in
    let c = s₁.thread_c in
    let (p₁, same) = charged s now u p in
    elim (Bool-cases ((s₁.threads c).state == t_running)) [
      | inl run ↦
          let other : u ≢ c =
            λ e. ground (arith, run, h, same, ap (λ (v : ℕ). (s₁.threads v).state) e) in
          rw (switch, run)
            (taken-keeps (move_to s₁ c t_ready) _ u
              (λ t. move_to-IsPlaced s₁ c t_ready t (p₁ c) (p₁ t))
              ((move_to-state s₁ c t_ready u).2 other ∙ same ∙ h))
      | inr away ↦ rw (switch, away) (taken-keeps s₁ _ u p₁ (same ∙ h))
    ]

schedule-keeps :
    (s : Sched) (now u : ℕ)
    → AllPlaced s
    → (s.threads u).state ≡ t_destroy
    → ((schedule s now).1.threads u).state ≡ t_destroy
unfolding schedule
schedule-keeps s now u p h = ground (arith, switch-keeps s now u p h)

-- The running thread's call of `block` at the end.
block_own :
    (s : Sched) (cpu : Cpu)
    → AllPlaced s
    → let s' = block s s.thread_c t_destroy cpu in
      AllPlaced s'
      × ((s'.threads s.thread_c).state ≡ t_destroy)
      × ((u : ℕ) → (s.threads u).state ≡ t_destroy → (s'.threads u).state ≡ t_destroy)
unfolding block int_sched sched_int_handler
block_own s cpu p =
    let c = s.thread_c in
    let w = move_to s c t_destroy in
    let w' = set_thread w w.thread_c (record (w.threads w.thread_c) { regs = cpu.regs }) in
    let (here, gone, _) = move_to-state s c t_destroy c in
    let placed : AllPlaced w = λ t. move_to-IsPlaced s c t_destroy t (p c) (p t) in
    let placed' : AllPlaced w' = λ t k ne. ground (arith, placed t k ne) in
    let own : (c == w.thread_c) ≡ true = ap (λ (v : ℕ). c == v) here ∙ ==_refl c in
    let after : (u : ℕ) → (w.threads u).state ≡ t_destroy → (w'.threads u).state ≡ t_destroy =
      λ u h. ground (arith, h) in
    rw (own) (
      schedule-AllPlaced w' cpu.now placed',
      schedule-keeps w' cpu.now c placed' (after c gone),
      (λ u h. schedule-keeps w' cpu.now u placed' (after u (still_destroyed s c u h))),
    )

destroy_all-AllPlaced :
    (ts : List ℕ) (s : Sched)
    → AllPlaced s
    → AllPlaced (destroy_all ts s) × ((destroy_all ts s).thread_c ≡ s.thread_c)
unfolding destroy_all
destroy_all-AllPlaced [] s p = (p, refl)
destroy_all-AllPlaced (t ∷ ts) s p =
    let (q, c) =
      destroy_all-AllPlaced ts (move_to s t t_destroy)
        (λ u. move_to-IsPlaced s t t_destroy u (p t) (p u)) in
    (q, c ∙ (move_to-state s t t_destroy 0).0)

destroy_semaphores-AllPlaced :
    (ms : List Semaphore) (s : Sched)
    → AllPlaced s
    → AllPlaced (destroy_semaphores ms s) × ((destroy_semaphores ms s).thread_c ≡ s.thread_c)
unfolding destroy_semaphores reset_destroy
destroy_semaphores-AllPlaced [] s p = (p, refl)
destroy_semaphores-AllPlaced (m ∷ ms) s p =
    let (q, c) = destroy_all-AllPlaced m.t_waiting s p in
    let (q', c') = destroy_semaphores-AllPlaced ms (destroy_all m.t_waiting s) q in (q', c' ∙ c)

stays_dead :
    (ts : List ℕ) (st : ℕ → Stacks) (u : ℕ)
    → (st u).process_alive ≡ false
    → (mark_dead ts st u).process_alive ≡ false
unfolding mark_dead
stays_dead [] st u h = h
stays_dead (t ∷ ts) st u h =
    stays_dead ts (λ v. if v == t then record (st v) { process_alive = false } else st v) u
      (ground (arith, h))

mark_dead_lem :
    (ts : List ℕ) (st : ℕ → Stacks) (u : ℕ) → IsIn u ts → (mark_dead ts st u).process_alive ≡ false
unfolding mark_dead
mark_dead_lem [] st u i = absurd i
mark_dead_lem (t ∷ ts) st u (inl e) =
    stays_dead ts (λ v. if v == t then record (st v) { process_alive = false } else st v) u
      (ground (arith, e))
mark_dead_lem (t ∷ ts) st u (inr i) =
    mark_dead_lem ts (λ v. if v == t then record (st v) { process_alive = false } else st v) u i

-- When a process is deleted, each of its threads but the running one is to be deleted, whatever list it stood
-- in before, and none frees its stacks any more; the running thread is to be deleted as well where the process
-- is its own, and it goes on where it is not. Every thread stands in the list of its state, where it did so
-- before.
pub destroy_process-AllPlaced :
    (own : Bool) (sems : List Semaphore) (ts : List ℕ) (st : ℕ → Stacks) (s : Sched) (cpu : Cpu)
    → AllPlaced s
    → let (s', st') = destroy_process own sems ts st s cpu in
      AllPlaced s'
      × ((t : ℕ) → IsIn t ts → t ≢ s.thread_c → (s'.threads t).state ≡ t_destroy)
      × (own ≡ true → (s'.threads s.thread_c).state ≡ t_destroy)
      × (own ≡ false → s'.thread_c ≡ s.thread_c)
      × ((t : ℕ) → IsIn t ts → (st' t).process_alive ≡ false)
unfolding destroy_process
destroy_process-AllPlaced own sems ts st s cpu p =
    let (q, c) = destroy_semaphores-AllPlaced sems s p in
    let s₁ = destroy_semaphores sems s in
    let (placed, c', all) = destroy_threads-AllPlaced ts s₁ cpu q in
    let s₂ = destroy_threads ts s₁ cpu in
    let others : (t : ℕ) → IsIn t ts → t ≢ s.thread_c → (s₂.threads t).state ≡ t_destroy =
      λ t i ne. all t i (λ e. ne (e ∙ c)) in
    let dead : (t : ℕ) → IsIn t ts → (mark_dead ts st t).process_alive ≡ false =
      λ t i. mark_dead_lem ts st t i in
    elim (Bool-cases own) [
      | inr stranger ↦
          rw stranger (placed, others, (λ e. absurd (ground (arith, e))), (λ e. c' ∙ c), dead)
      | inl running ↦
          let (placed', gone, kept) = block_own s₂ cpu placed in
          rw running (
            placed',
            (λ t i ne. kept t (others t i ne)),
            (λ e.
                ap (λ (v : ℕ). ((block s₂ s₂.thread_c t_destroy cpu).threads v).state)
                  (sym (c' ∙ c))
                ∙ gone),
            (λ e. absurd (ground (arith, e))),
            dead,
          )
    ]
