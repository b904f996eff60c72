-- ===== src/Sched/Create/Clean.antt =====
-- The thread that deletes the others.

use cpp_os.Base.{IsIn, ℕ, ◌≡◌, ◌≢◌, List, [], ◌∷◌, ◌==◌, if◌then◌else◌}
use cpp_os.Sched.Thread.{Sched}
use cpp_os.Sched.Semaphore.{Semaphore}
use cpp_os.Sched.Create.{Stacks, Proc}

-- No thread of the list is the idle thread.
abbrev pub AllStacked : (ℕ → Stacks) → List ℕ → Type 0
AllStacked st [] = Unit {0}
AllStacked st (t ∷ ts) = ((st t).stack_size ≢ 0) × AllStacked st ts

-- No thread waits for a semaphore of a list.
abbrev pub NoneWaiting : List Semaphore → Type 0
NoneWaiting [] = Unit {0}
NoneWaiting (m ∷ ms) = (m.t_waiting ≡ []) × NoneWaiting ms

-- The running thread, the cleaner, is on the list of its process and is not to be deleted, and no thread waits
-- for a semaphore of a process.
abbrev pub IsCleaning : (ℕ → Proc) → Sched → List ℕ → Type 0
IsCleaning procs s ts =
    IsIn s.thread_c (procs (s.threads s.thread_c).proc).threads
    × (¬ IsIn s.thread_c ts)
    × ((p : ℕ) → NoneWaiting (procs p).sems)

-- The processes after one has other threads.
abbrev with_threads : (ℕ → Proc) → ℕ → List ℕ → ℕ → Proc
with_threads procs p left q = if q == p then record (procs p) { threads = left } else procs q
