-- ===== src/Sched/Thread.antt =====
-- src/sched/thread.cpp: threads, their lists and the scheduler, on one processor. A list stands
-- for its sequence of nodes (`Util.LinkedList`), threads are told apart by their addresses, and
-- `lock` and `unlock`, which disable interrupts, make each operation one step.
pub mod Placed
pub mod Switch
pub mod Wake
pub mod Timer
pub mod Fair
use cpp_os.Util.LinkedList.Access.{Cursor, read, after_remove}
use cpp_os.Base.{
  ℕ, zero, suc, ◌+◌, ◌-◌, ◌*◌, Bool, true, false, ◌&&◌, ◌||◌, Option, none, some, List, [], ◌∷◌,
  ◌++◌, ltb, leb, ◌==◌, if◌then◌else◌, add64, sub64, length, max, ◌%◌, ◌^◌,
}

-- The fields of `sched::thread` that scheduling reads and writes; `regs` names a saved register
-- block and `proc` a process.
pub record Thread : Type 0 where
  pub regs : ℕ
  pub time : ℕ
  pub state : ℕ
  pub proc : ℕ
  pub sleep_time : ℕ

-- The file's variables, the threads' fields, and the process whose page table `cr3` holds.
pub record Sched : Type 0 where
  pub threads : ℕ → Thread
  pub t_list : ℕ → List ℕ
  pub thread_c : ℕ
  pub post_c : ℕ
  pub post_flag : Bool
  pub nsec_last : ℕ
  pub cr3 : ℕ

-- What an interrupt finds: the registers of the thread that it stops, and the timer's reading.
pub record Cpu : Type 0 where
  pub regs : ℕ
  pub now : ℕ

abbrev pub t_running : ℕ
t_running = 0

abbrev pub t_ready : ℕ
t_ready = 1

abbrev pub t_destroy : ℕ
t_destroy = 2

abbrev pub t_sleep : ℕ
t_sleep = 3

abbrev pub t_reason_max : ℕ
t_reason_max = 3

abbrev pub t_semaphore_wait : ℕ
t_semaphore_wait = 128

abbrev pub thread_time_slice : ℕ
thread_time_slice = 5000000

-- `remove_p` on the sequence: the node is taken out.
abbrev pub erase : ℕ → List ℕ → List ℕ
erase t [] = []
erase t (u ∷ us) = if u == t then us else u ∷ erase t us

abbrev pub set_list : Sched → ℕ → List ℕ → Sched
set_list s k xs = record s { t_list = λ j. if j == k then xs else s.t_list j }

abbrev pub set_thread : Sched → ℕ → Thread → Sched
set_thread s t v = record s { threads = λ u. if u == t then v else s.threads u }

abbrev pub set_state : Sched → ℕ → ℕ → Sched
set_state s t k = set_thread s t (record (s.threads t) { state = k })

-- `void thread::move_to (usize state_list)`
unfoldable pub move_to : Sched → ℕ → ℕ → Sched
move_to s t k =
    let old = (s.threads t).state in
    let s₁ = (if old == t_semaphore_wait then s else set_list s old (erase t (s.t_list old))) in
    let s₂ = set_state s₁ t k in
    let s₃ = (if k == t_semaphore_wait then s₂ else set_list s₂ k (s₂.t_list k ++ (t ∷ []))) in
    if old == k then s else s₃

-- `u64 thread::update_time ()`: the running thread is charged for the time since the last switch.
unfoldable pub update_time : Sched → ℕ → Sched
update_time s now =
    let v = s.threads s.thread_c in
    record (set_thread s s.thread_c (record v { time = add64 v.time (sub64 now s.nsec_last) })) {
      nsec_last = now;
    }

-- The part of `schedule` that takes the first ready thread.
unfoldable pub switch_to : Sched → ℕ → List ℕ → Sched
switch_to s next rest =
    let s₁ = set_list s t_ready rest in
    let s₂ = set_list s₁ t_running (s₁.t_list t_running ++ (next ∷ [])) in
    set_state (record s₂ { thread_c = next }) next t_running

unfoldable pub load_space : Sched → ℕ → Sched
load_space s saved =
    let p = (s.threads s.thread_c).proc in if p == saved then s else record s { cr3 = p }

-- `pop_start` of the ready list, which is not empty there.
unfoldable pub take_ready : Sched → List ℕ → Sched
take_ready s [] = s
take_ready s (next ∷ rest) = switch_to s next rest

-- The switch of `schedule`, with the ready list not empty.
unfoldable pub switch : Sched → ℕ → Sched
switch s now =
    let s₁ = update_time s now in
    let saved = (s₁.threads s₁.thread_c).proc in
    let running = (s₁.threads s₁.thread_c).state == t_running in
    let s₂ = (if running then move_to s₁ s₁.thread_c t_ready else s₁) in
    load_space (take_ready s₂ (s₂.t_list t_ready)) saved

-- `registers *schedule ()`: the thread whose registers are to be loaded, or null.
unfoldable pub schedule : Sched → ℕ → Option ℕ × Sched
schedule s now =
    if s.post_c == 0
    then if length (s.t_list t_ready) == 0
      then (none, s)
      else (some (switch s now).thread_c, switch s now)
    else (none, record s { post_flag = true })

-- `sched_int_handler`; `user` says that the saved code segment is a user's.
unfoldable pub sched_int_handler : Sched → Bool → Cpu → Option ℕ × Sched
sched_int_handler s user cpu =
    if user
    then (none, s)
    else schedule (set_thread s s.thread_c (record (s.threads s.thread_c) { regs = cpu.regs }))
        cpu.now

-- `int_sched ()`: the kernel raises interrupt 128. Where the handler switches, the code behind the
-- call goes on when the thread is switched to again; the state here is the one of the switch.
unfoldable pub int_sched : Sched → Cpu → Sched
int_sched s cpu = (sched_int_handler s false cpu).1

-- `void thread::block (u8 state)`
unfoldable pub block : Sched → ℕ → ℕ → Cpu → Sched
block s t k cpu = let s' = move_to s t k in if t == s'.thread_c then int_sched s' cpu else s'

-- `void thread::unblock ()`
unfoldable pub unblock : Sched → ℕ → Cpu → Sched
unblock s t cpu =
    let s' = move_to s t t_ready in if length (s'.t_list t_ready) == 1 then int_sched s' cpu else s'

-- `void thread::nsleep_until (u64 time)`; the timer is read first at `now`.
unfoldable pub nsleep_until : Sched → ℕ → ℕ → ℕ → Cpu → Sched
nsleep_until s t time now cpu =
    if leb time now
    then s
    else block (set_thread s t (record (s.threads t) { sleep_time = time })) t t_sleep cpu

-- `void thread::nsleep (u64 time)`, with the timer's readings at its two calls.
unfoldable pub nsleep : Sched → ℕ → ℕ → ℕ → ℕ → Cpu → Sched
nsleep s t time now now' cpu = nsleep_until s t (add64 now time) now' cpu

-- `void thread::sleep (u64 time)`
unfoldable pub sleep : Sched → ℕ → ℕ → ℕ → ℕ → Cpu → Sched
sleep s t time now now' cpu = nsleep s t (time * 1000000000 % 2 ^ 64) now now' cpu

-- `lock_all` and `unlock_all`: while the count is not zero `schedule` only leaves a note.
unfoldable pub lock_all : Sched → Sched
lock_all s = record s { post_c = (s.post_c + 1) % 2 ^ 32 }

unfoldable pub unlock_all : Sched → Cpu → Sched
unlock_all s cpu =
    let s' = record s { post_c = max s.post_c 1 - 1 } in
    if (s'.post_c == 0) && s.post_flag then int_sched (record s' { post_flag = false }) cpu else s'

-- The loop of `sched_time_handler` over the sleeping threads, from index `i`, with the cursor of their
-- list. A thread that is woken leaves the list, and the index stays. `none` is a read with a cursor that
-- is not right.
unfoldable pub wake_loop : ℕ → Sched → Cursor → ℕ → ℕ → Cpu → Option (Sched × Cursor)
wake_loop zero s c i nsec cpu = some (s, c)
wake_loop (suc fuel) s c i nsec cpu =
    if ltb i (length (s.t_list t_sleep))
    then elim (read (s.t_list t_sleep) c i) [
      | none ↦ none
      | some (temp, c') ↦
          let wake = leb (s.threads temp).sleep_time nsec in
          wake_loop fuel (if wake then unblock s temp cpu else s)
            (if wake then after_remove c' temp else c') (if wake then i else i + 1) nsec cpu
    ]
    else some (s, c)

-- `sched_time_handler`, with the cursor of the sleeping threads' list. Each round passes a thread or
-- wakes one, so the list's length is enough.
unfoldable pub sched_time_handler : Sched → Cursor → ℕ → Cpu → Option ((Option ℕ × Sched) × Cursor)
sched_time_handler s c nsec cpu =
    let s₁ = set_thread s s.thread_c (record (s.threads s.thread_c) { regs = cpu.regs }) in
    let s₂ = lock_all s₁ in
    elim (wake_loop (length (s₂.t_list t_sleep)) s₂ c 0 nsec cpu) [
      | none ↦ none
      | some (s₃, c') ↦
          let s₄ = unlock_all s₃ cpu in
          some (
            if leb thread_time_slice (sub64 nsec s₄.nsec_last)
                then schedule s₄ cpu.now
                else (none, s₄),
            c',
          )
    ]

-- `void sys_thread_block (…, usize reason, usize nsec)` of the running thread.
unfoldable pub sys_thread_block : Sched → ℕ → ℕ → ℕ → Cpu → Sched
sys_thread_block s reason nsec now cpu =
    if ltb t_reason_max reason || (reason == t_running)
    then s
    else if reason == t_sleep
    then nsleep_until s s.thread_c nsec now cpu
    else block s s.thread_c (reason % 2 ^ 8) cpu
