-- ===== src/Sched/Thread/Timer.antt =====
-- `sched_time_handler` as a whole.
use cpp_os.Sched.Thread.{Sched, Cpu, lock_all, set_thread}

-- The state in which the handler's loop starts.
started : Sched → Cpu → Sched
started s cpu =
    lock_all (set_thread s s.thread_c (record (s.threads s.thread_c) { regs = cpu.regs }))
