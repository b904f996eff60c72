-- ===== src/Sched/Semaphore/Mutex.antt =====
-- Threads that lock and unlock one semaphore, in any order: never more of them hold it than it
-- admits.
use cpp_os.Base.{
  ℕ, ◌+◌, ◌≤◌, ◌≡◌, ◌≢◌, refl, sym, ◌∙◌, Bool, true, false, ◌||◌, List, [], ◌∷◌, arith, ◌==◌, ltb,
  if◌then◌else◌, length, ◌⊎◌, inl, inr, Bool-cases, ==_refl, ne→==,
}
use cpp_os.Sched.Thread.{
  Sched, Cpu, set_thread, move_to, int_sched, sched_int_handler, t_ready, t_running,
  t_semaphore_wait,
}
use cpp_os.Sched.Thread.Switch.{IsRunning, schedule_next}
use cpp_os.Sched.Semaphore.{Semaphore, new_semaphore, lock, try_lock, unlock, unlock_waiting}

-- The semaphore, and the threads that are inside: those whose `lock` has returned, or whose
-- `try_lock` returned true, and which have not called `unlock`.
pub record Users : Type 0 where
  pub sem : Semaphore
  pub inside : List ℕ

-- A thread is taken off the list of those inside.
abbrev pub leave : ℕ → List ℕ → List ℕ
leave t [] = []
leave t (u ∷ us) = if u == t then us else u ∷ leave t us

abbrev pub has : ℕ → List ℕ → Bool
has t [] = false
has t (u ∷ us) = (u == t) || has t us

-- `lock` has returned to its caller where that is the running thread afterwards. A thread that was switched
-- away returns from `lock` when `unlock` has taken it from the waiting ones.
abbrev pub entered : ℕ → List ℕ → Sched → List ℕ
entered t inside s = if s.thread_c == t then t ∷ inside else inside

abbrev pub handed : Semaphore → List ℕ → List ℕ
handed m inside = elim m.t_waiting [ [] ↦ inside | t ∷ rest ↦ t ∷ inside ]

-- The scheduler can switch to a thread other than the running one.
abbrev pub IsSwitchable : Sched → Type 0
IsSwitchable s =
    (next : ℕ) × (rest : List ℕ) × (s.post_c ≡ 0)
    × (s.t_list t_ready ≡ next ∷ rest)
    × (next ≢ s.thread_c)

pub data Step (s : Sched) (cpu : Cpu) (u : Users) : Users → Type 0 where
  locks :
      IsRunning s
      → (ltb u.sem.thr_c u.sem.max_thr_c ≡ false → IsSwitchable s)
      → Step s cpu u (record {
        sem = (lock u.sem s cpu).0;
        inside = entered s.thread_c u.inside (lock u.sem s cpu).1;
      })
  tries : Step s cpu u (record {
    sem = (try_lock u.sem).1;
    inside = if (try_lock u.sem).0 then s.thread_c ∷ u.inside else u.inside;
  })
  unlocks :
      has s.thread_c u.inside ≡ true
      → Step s cpu u (record {
        sem = (unlock u.sem s cpu).0;
        inside = handed u.sem (leave s.thread_c u.inside);
      })

-- Any number of steps, with the scheduler and the processor in any state at each.
pub data Run (u : Users) : Users → Type 0 where
  start : Run u u
  step : {v w : Users} (s : Sched) (cpu : Cpu) → Run u v → Step s cpu v w → Run u w

-- `thr_c` counts the threads inside, up to the maximum, and threads wait only at the maximum.
record IsCounted (n : ℕ) (u : Users) : Type 0 where
  fixed : u.sem.max_thr_c ≡ n
  counted : u.sem.thr_c ≡ length u.inside
  bounded : u.sem.thr_c ≤ n
  full : u.sem.t_waiting ≢ [] → u.sem.thr_c ≡ n

length-leave : (t : ℕ) (us : List ℕ) → has t us ≡ true → length (leave t us) + 1 ≡ length us
length-leave t [] h = cc
length-leave t (u ∷ us) h = ground (arith, length-leave t us)

-- The running thread is taken off the running list.
waiting_lists :
    (s : Sched) (regs : ℕ)
    → IsRunning s
    → let w = move_to s s.thread_c t_semaphore_wait in
      let s' = set_thread w w.thread_c (record (w.threads w.thread_c) { regs = regs }) in
      (s'.post_c ≡ s.post_c)
      × (s'.t_list t_ready ≡ s.t_list t_ready)
      × (s'.t_list t_running ≡ [])
      × ((s'.threads s'.thread_c).state ≢ t_running)
unfolding move_to
waiting_lists s regs (run, state) =
    rw (state, run, ==_refl s.thread_c) (refl, refl, refl, λ e. ground (arith, e))

-- `lock` of a semaphore that is full does not return before the next thread runs.
lock_switches :
    (m : Semaphore) (s : Sched) (cpu : Cpu)
    → ltb m.thr_c m.max_thr_c ≡ false
    → IsRunning s
    → IsSwitchable s
    → ((lock m s cpu).1.thread_c == s.thread_c) ≡ false
unfolding lock int_sched sched_int_handler
lock_switches m s cpu full run (next, rest, open_, ready, other) =
    let w = move_to s s.thread_c t_semaphore_wait in
    let s' = set_thread w w.thread_c (record (w.threads w.thread_c) { regs = cpu.regs }) in
    let (post, same, empty, away) = waiting_lists s cpu.regs run in
    let (_, c, _, _) =
      schedule_next s' cpu.now next rest (post ∙ open_) (same ∙ ready) (inr (empty, away)) in
    rw (full, c) (ne→== _ _ other)

Step-IsCounted :
    (n : ℕ) (s : Sched) (cpu : Cpu) (u v : Users) → Step s cpu u v → IsCounted n u → IsCounted n v
unfolding lock try_lock unlock unlock_waiting
Step-IsCounted n s cpu u v (locks run others) c =
    elim (Bool-cases (ltb u.sem.thr_c u.sem.max_thr_c)) [
      | inl free ↦ rw (lock, free, ==_refl s.thread_c) (ground (arith, free))
      | inr full ↦
          let away = lock_switches u.sem s cpu full run (others full) in
          rw (away, lock, full) (ground (arith, full))
    ]
Step-IsCounted n s cpu u v tries c = ground arith
Step-IsCounted n s cpu u v (unlocks h) c = ground (arith, length-leave s.thread_c u.inside h)

Run-IsCounted : (n : ℕ) (u : Users) {v : Users} → Run u v → IsCounted n u → IsCounted n v
Run-IsCounted n u start c = c
Run-IsCounted n u (step s cpu r st) c = Step-IsCounted n s cpu _ _ st (Run-IsCounted n u r c)

abbrev pub fresh : ℕ → Users
fresh n = record { sem = new_semaphore n; inside = [] }

fresh-IsCounted : (n : ℕ) → IsCounted n (fresh n)
unfolding new_semaphore
fresh-IsCounted n = record {
  fixed = refl;
  counted = refl;
  bounded = omega arith;
  full = λ h. absurd (h refl);
}

waits_or_full : (n : ℕ) (u : Users) → IsCounted n u → (u.sem.t_waiting ≡ []) ⊎ (length u.inside ≡ n)
waits_or_full n u c = elim (empty_or u.sem.t_waiting) [
  | inl e ↦ inl e
  | inr ne ↦ inr (sym c.counted ∙ c.full ne)
]
  where
    empty_or : (l : List ℕ) → (l ≡ []) ⊎ (l ≢ [])
    empty_or [] = inl refl
    empty_or (x ∷ l) = inr (λ e. cc)

-- From a new semaphore for `n` threads, after any sequence of `lock`, `try_lock` and `unlock` by running
-- threads that unlock only what they hold, at most `n` threads are inside; and threads wait only while
-- exactly `n` are. Where `lock` finds the semaphore full, another thread is ready and scheduling is not
-- postponed.
pub at_most_n_inside :
    (n : ℕ) {u : Users}
    → Run (fresh n) u
    → (length u.inside ≤ n) × ((u.sem.t_waiting ≡ []) ⊎ (length u.inside ≡ n))
at_most_n_inside n {u} r =
    let c = Run-IsCounted n (fresh n) r (fresh-IsCounted n) in
    (omega (arith, c.counted, c.bounded), waits_or_full n u c)
