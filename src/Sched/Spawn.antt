-- ===== src/Sched/Spawn.antt =====
-- src/sched/process.cpp and src/sched/thread.cpp: how threads come into a process, and the calls that start the
-- scheduler. What `new` returns is an argument: the address of the object, or null, and for a node of
-- a list whether there is one.
pub mod Lives
use cpp_os.Base.{
  ℕ, ◌+◌, ◌*◌, ◌^◌, Bool, true, false, Option, none, some, List, [], ◌∷◌, ◌++◌, ◌==◌, not,
  if◌then◌else◌, bit_or,
}
use cpp_os.Util.ArrayList.{◌>>=◌}
use cpp_os.Sched.Thread.{Sched, Cpu, nsleep}
use cpp_os.Sched.Semaphore.{Semaphore}
use cpp_os.Sched.Create.{
  Stacks, init_lists, init_stacks, init_idle_stacks, destroy_thread, destroy_process, clean_loop,
  Proc,
}
use cpp_os.Interrupt.{reg, reg_int_handler}

-- `bool process::add_thread (thread &thr)`; `node` says that there is a node for it.
unfoldable pub add_thread : Bool → List ℕ → ℕ → Bool × List ℕ
add_thread node threads t = if node then (true, threads ++ (t ∷ [])) else (false, threads)

-- `void thread::init (thread_func_t func)`; `none` is the assertion that fails. The assertion
-- is `process.add_thread (*this)` itself, as the debug build has it: the thread is added here.
unfoldable pub thread_init :
    Bool → Sched → Stacks → ℕ → ℕ → ℕ → ℕ → ℕ → Bool → List ℕ → Option (Sched × Stacks × List ℕ)
thread_init init_done s raw uid func stack kstack t node threads =
    let (ok, threads') = add_thread node threads t in
    let st =
      (if init_done then init_stacks raw uid func stack kstack else init_idle_stacks raw uid) in
    if ok then some (init_lists init_done s t, st, threads') else none

-- `~thread ()` as `new_thread` gets to it, and what it leaves.
pub record Spawned : Type 0 where
  pub thread : ℕ
  pub sched : Sched
  pub stacks : Stacks
  pub threads : List ℕ
  pub freed : List ℕ
  pub ended : Bool

-- `thread *process::new_thread (const char *name, thread_func_t func)`: the constructor has added the thread, and it is
-- added again.
unfoldable pub new_thread :
    Sched → Stacks → ℕ → ℕ → ℕ → ℕ → ℕ → Bool → Bool → List ℕ → Option Spawned
new_thread s raw uid func stack kstack t node node' threads =
    if t == 0
    then some (record {
      thread = 0;
      sched = s;
      stacks = raw;
      threads = threads;
      freed = [];
      ended = false;
    })
    else (do
      (s', st, once) ← thread_init true s raw uid func stack kstack t node threads
      let (ok, twice) = add_thread node' once t
      let (freed, left, last) = destroy_thread st once t
      some (
          if ok
          then record {
            thread = t;
            sched = s';
            stacks = st;
            threads = twice;
            freed = [];
            ended = false;
          }
          else record {
            thread = 0;
            sched = s';
            stacks = st;
            threads = left;
            freed = freed;
            ended = last;
          }))

-- `bool sys_thread_new (syscall_vals_t *vals, u32 options, thread_func_t func)`, on what `new_thread` returns.
unfoldable pub sys_thread_new : Spawned → Bool
sys_thread_new out = not (out.thread == 0)

-- `void sched::init ()`: the handlers of the timer's vector and of the scheduler's, whose results are
-- not looked at, and the thread of the cleaner; `none` is the panic without it.
unfoldable pub init : List ℕ → List ℕ → ℕ → ℕ → Option Spawned → Option (List ℕ × List ℕ × Spawned)
init timer_slots sched_slots time_handler int_handler cleaner = do
  out ← cleaner
  let timer_slots' = (reg_int_handler timer_slots time_handler reg).1
  let sched_slots' = (reg_int_handler sched_slots int_handler reg).1
  if out.thread == 0 then none else some (timer_slots', sched_slots', out)

-- One round of `thread_cleaner`: the threads that are to be deleted, then 0.3 s of sleep.
unfoldable pub clean_round :
    ℕ → (ℕ → Stacks) → (ℕ → Proc) → Sched → ℕ → ℕ → Cpu → Option (List ℕ × (ℕ → Proc) × Sched)
clean_round fuel st procs s now now' cpu = do
  (gone, procs', s') ← clean_loop fuel st cpu procs s
  some (gone, procs', nsleep s' s'.thread_c 300000000 now now' cpu)

-- `EFER_NXE`
abbrev pub efer_nxe : ℕ
efer_nxe = 2 ^ 11

-- What `proc_init` leaves: the register, the list of processes, the scheduler, the idle thread's
-- stacks and its process's threads, and the page table that is loaded.
pub record Begun : Type 0 where
  pub efer : ℕ
  pub proc_list : List ℕ
  pub sched : Sched
  pub stacks : Stacks
  pub threads : List ℕ

-- `void proc_init (void)`: `proc` and `idle` are what `new` returns for the process and the idle
-- thread, which has no stack, and `none` is a panic. The thread is added a second time, and whether that
-- succeeds is not looked at.
unfoldable pub proc_init : ℕ → Sched → Stacks → ℕ → ℕ → ℕ → ℕ → Bool → Bool → Option Begun
proc_init efer s raw list proc idle cr3 node node' =
    if list == 0 then none else if proc == 0 then none else if idle == 0 then none else (do
      (s', st, once) ←
          thread_init false s (record raw { stack_size = 0; process_alive = true }) 0 0 0 0 idle
            node []
      some (record {
        efer = bit_or efer efer_nxe;
        proc_list = proc ∷ [];
        sched = record s' { cr3 = cr3 };
        stacks = st;
        threads = (add_thread node' once idle).1;
      }))

-- `void sys_exit (void)`: the process of the running thread is deleted.
unfoldable pub sys_exit :
    List Semaphore → List ℕ → (ℕ → Stacks) → Sched → Cpu → Sched × (ℕ → Stacks)
sys_exit sems threads st s cpu = destroy_process true sems threads st s cpu
