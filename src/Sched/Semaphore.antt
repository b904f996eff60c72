-- ===== src/Sched/Semaphore.antt =====
-- The semaphores of src/sched/thread.cpp, over the scheduler of `Sched.Thread`.
pub mod Mutex
use cpp_os.Base.{ℕ, ◌+◌, ◌-◌, Bool, true, false, List, [], ◌∷◌, ◌++◌, ltb, ◌==◌, if◌then◌else◌}
use cpp_os.Sched.Thread.{Sched, Cpu, move_to, int_sched, unblock, t_semaphore_wait, t_destroy}

-- `sched::semaphore`
pub record Semaphore : Type 0 where
  pub max_thr_c : ℕ
  pub thr_c : ℕ
  pub t_waiting : List ℕ

-- `semaphore (usize n)`
unfoldable pub new_semaphore : ℕ → Semaphore
new_semaphore n = record { max_thr_c = n; thr_c = 0; t_waiting = [] }

-- `void lock ()`
unfoldable pub lock : Semaphore → Sched → Cpu → Semaphore × Sched
lock m s cpu = if ltb m.thr_c m.max_thr_c then (record m { thr_c = m.thr_c + 1 }, s) else (
  record m { t_waiting = m.t_waiting ++ (s.thread_c ∷ []) },
  int_sched (move_to s s.thread_c t_semaphore_wait) cpu,
)

-- `bool try_lock ()`
unfoldable pub try_lock : Semaphore → Bool × Semaphore
try_lock m =
    if ltb m.thr_c m.max_thr_c then (true, record m { thr_c = m.thr_c + 1 }) else (false, m)

-- The branches of `unlock` for the waiting threads.
unfoldable pub unlock_waiting : Semaphore → List ℕ → Sched → Cpu → Semaphore × Sched
unlock_waiting m [] s cpu = (if m.thr_c == 0 then m else record m { thr_c = m.thr_c - 1 }, s)
unlock_waiting m (t ∷ rest) s cpu = (record m { t_waiting = rest }, unblock s t cpu)

-- `void unlock ()`
unfoldable pub unlock : Semaphore → Sched → Cpu → Semaphore × Sched
unlock m s cpu = unlock_waiting m m.t_waiting s cpu

-- The loops of `reset_ready ()` and `reset_destroy ()`, after which the semaphore is deleted.
unfoldable pub unblock_all : List ℕ → Sched → Cpu → Sched
unblock_all [] s cpu = s
unblock_all (t ∷ rest) s cpu = unblock_all rest (unblock s t cpu) cpu

unfoldable pub reset_ready : Semaphore → Sched → Cpu → Sched
reset_ready m s cpu = unblock_all m.t_waiting s cpu

unfoldable pub destroy_all : List ℕ → Sched → Sched
destroy_all [] s = s
destroy_all (t ∷ rest) s = destroy_all rest (move_to s t t_destroy)

unfoldable pub reset_destroy : Semaphore → Sched → Sched
reset_destroy m s = destroy_all m.t_waiting s
