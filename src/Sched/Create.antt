-- ===== src/Sched/Create.antt =====
-- src/sched/thread.cpp and src/sched/process.cpp: the creation and the end of threads. The stacks that
-- the allocators return are arguments.
pub mod Lists
pub mod Clean
pub mod Ended
use cpp_os.Base.{
  ℕ, zero, suc, ◌+◌, Bool, true, false, Option, none, some, List, [], ◌∷◌, ◌++◌, ◌==◌,
  if◌then◌else◌, add64, sub64, length,
}
use mathlib.Core.Option
use cpp_os.Sched.Thread.{
  Sched, Cpu, set_list, set_state, block, erase, t_running, t_ready, t_destroy,
}
use cpp_os.Sched.Semaphore.{Semaphore, reset_destroy}

-- `struct registers`
pub record Registers : Type 0 where
  pub rax : ℕ
  pub rbx : ℕ
  pub rcx : ℕ
  pub rdx : ℕ
  pub rbp : ℕ
  pub rsp : ℕ
  pub kernel_rsp : ℕ
  pub call_save_rsp : ℕ
  pub rdi : ℕ
  pub rsi : ℕ
  pub r8 : ℕ
  pub r9 : ℕ
  pub r10 : ℕ
  pub r11 : ℕ
  pub r12 : ℕ
  pub r13 : ℕ
  pub r14 : ℕ
  pub r15 : ℕ
  pub rflags : ℕ
  pub rip : ℕ
  pub cs : ℕ
  pub ss : ℕ

-- `user_regs`, `superuser_regs` and `kernel_regs`
abbrev pub user_regs : Registers
user_regs = record {
  rax = 0;
  rbx = 0;
  rcx = 0;
  rdx = 0;
  rbp = 0;
  rsp = 0;
  kernel_rsp = 0;
  call_save_rsp = 0;
  rdi = 0;
  rsi = 0;
  r8 = 0;
  r9 = 0;
  r10 = 0;
  r11 = 0;
  r12 = 0;
  r13 = 0;
  r14 = 0;
  r15 = 0;
  rflags = 0x3202;
  rip = 0;
  cs = 0x23;
  ss = 0x1b;
}

abbrev pub superuser_regs : Registers
superuser_regs = record user_regs { rflags = 0x202 }

abbrev pub kernel_regs : Registers
kernel_regs = record user_regs { rflags = 0x202; cs = 0x08; ss = 0x10 }

-- `KSTACK_SIZE`
abbrev pub kstack_size_default : ℕ
kstack_size_default = 262144

-- The fields of `sched::thread` that the lists do not need.
pub record Stacks : Type 0 where
  pub regs : Registers
  pub stack_start : ℕ
  pub stack_size : ℕ
  pub kstack_start : ℕ
  pub kstack_size : ℕ
  pub process_alive : Bool

abbrev pub initial_regs : ℕ → Registers
initial_regs uid = if uid == 0 then kernel_regs else if uid == 1 then superuser_regs else user_regs

-- The stacks and registers that `thread::init` sets, where the idle thread has been made: `stack` and
-- `kstack` are what the allocators return, and `raw` is the memory of the object.
unfoldable pub init_stacks : Stacks → ℕ → ℕ → ℕ → ℕ → Stacks
init_stacks raw uid func stack kstack =
    let regs = initial_regs uid in
    let kernel = (if uid == 0 then true else false) in
    let kstack_size = (if kernel then 0 else kstack_size_default) in
    let kstack_start = (if kernel then 0 else kstack) in
    record raw {
      regs = record regs {
        kernel_rsp = if kernel then regs.kernel_rsp else add64 kstack kstack_size_default;
        rsp = sub64 (add64 stack raw.stack_size) 8;
        rip = func;
      };
      stack_start = stack;
      kstack_start = kstack_start;
      kstack_size = kstack_size;
    }

-- The idle thread's.
unfoldable pub init_idle_stacks : Stacks → ℕ → Stacks
init_idle_stacks raw uid = record raw { regs = initial_regs uid; stack_start = 0 }

-- The lists that `thread::init` puts the thread `t` on.
unfoldable pub init_lists : Bool → Sched → ℕ → Sched
init_lists true s t = set_state (set_list s t_ready (s.t_list t_ready ++ (t ∷ []))) t t_ready
init_lists false s t =
    set_state (record (set_list s t_running (s.t_list t_running ++ (t ∷ []))) { thread_c = t }) t
      t_running

-- What `~thread ()` frees, and the thread is taken off its process's list by `rem_thread`: the threads
-- that are left and whether the process is deleted.
unfoldable pub rem_thread : List ℕ → ℕ → List ℕ × Bool
rem_thread threads t = let left = erase t threads in (left, length left == 0)

unfoldable pub destroy_thread : Stacks → List ℕ → ℕ → List ℕ × List ℕ × Bool
destroy_thread st threads t =
    let (left, last) = rem_thread threads t in
    let freed =
      (if st.kstack_size == 0
        then st.stack_start ∷ []
        else st.stack_start ∷ st.kstack_start ∷ []) in
    if st.process_alive then (freed, left, last) else ([], threads, false)

-- The two loops of `~process ()`: the semaphores, then the threads, of which all but the running one
-- are blocked here and all are marked by `mark_dead`.
unfoldable pub destroy_semaphores : List Semaphore → Sched → Sched
destroy_semaphores [] s = s
destroy_semaphores (m ∷ ms) s = destroy_semaphores ms (reset_destroy m s)

unfoldable pub destroy_one : Sched → ℕ → Cpu → Sched
destroy_one s t cpu = if t == s.thread_c then s else block s t t_destroy cpu

unfoldable pub destroy_threads : List ℕ → Sched → Cpu → Sched
destroy_threads [] s cpu = s
destroy_threads (t ∷ ts) s cpu = destroy_threads ts (destroy_one s t cpu) cpu

-- `set_process_alive (false)` of the second loop.
unfoldable pub mark_dead : List ℕ → (ℕ → Stacks) → ℕ → Stacks
mark_dead [] st u = st u
mark_dead (t ∷ ts) st u =
    mark_dead ts (λ v. if v == t then record (st v) { process_alive = false } else st v) u

-- `~process ()` on the scheduler and the threads' stacks; `own` says that it is the running thread's
-- process, and that thread is then blocked.
unfoldable pub destroy_process :
    Bool → List Semaphore → List ℕ → (ℕ → Stacks) → Sched → Cpu → Sched × (ℕ → Stacks)
destroy_process own sems threads st s cpu =
    let s' = destroy_threads threads (destroy_semaphores sems s) cpu in
    (if own then block s' s'.thread_c t_destroy cpu else s', mark_dead threads st)

-- A process as far as the end of its threads goes.
pub record Proc : Type 0 where
  pub threads : List ℕ
  pub sems : List Semaphore

-- `delete temp`: the thread is taken off the list of its process, which is deleted after its last one. A
-- thread whose process is gone leaves both as they are.
unfoldable pub delete_thread : (ℕ → Stacks) → Cpu → ℕ → (ℕ → Proc) → Sched → (ℕ → Proc) × Sched
delete_thread st cpu t procs s =
    let p = (s.threads t).proc in
    let (freed, left, last) = destroy_thread (st t) (procs p).threads t in
    let ended =
      (destroy_process (p == (s.threads s.thread_c).proc) (procs p).sems left st s cpu).0 in
    (
      λ q. if q == p then record (procs p) { threads = left } else procs q,
      if last then ended else s,
    )

-- `pop_start` of the list of threads to be deleted.
abbrev pub popped : Sched → List ℕ → Sched
popped s [] = s
popped s (t ∷ rest) = set_list s t_destroy rest

abbrev pub head_or : ℕ → List ℕ → ℕ
head_or d [] = d
head_or d (t ∷ rest) = t

-- The inner loop of `thread_cleaner`, on fuel, where no interrupt comes in between: the threads that are
-- deleted, in order. `none` is fuel that is short, or the panic over the idle thread, whose stack has no
-- size.
unfoldable pub clean_loop :
    ℕ → (ℕ → Stacks) → Cpu → (ℕ → Proc) → Sched → Option (List ℕ × (ℕ → Proc) × Sched)
clean_loop zero st cpu procs s = none
clean_loop (suc fuel) st cpu procs s =
    let t = head_or 0 (s.t_list t_destroy) in
    let (procs', s') = delete_thread st cpu t procs (popped s (s.t_list t_destroy)) in
    let rest = clean_loop fuel st cpu procs' s' in
    if length (s.t_list t_destroy) == 0
    then some ([], procs, s)
    else if (st t).stack_size == 0
    then none
    else Option.map (λ (r : List ℕ × (ℕ → Proc) × Sched). (t ∷ r.0, r.1, r.2)) rest
