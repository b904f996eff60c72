-- ===== src/Sched/Tests.antt =====
-- The theorems on src/sched at small states.
use cpp_os.Base.{
  IsIn, ◌≡◌, refl, inl, List, [], ◌∷◌, false, some, ◌==◌, if◌then◌else◌, arith, ◌⊎◌, ◌≤◌, length,
  map, ℕ, ◌^◌, true, ◌++◌, ◌||◌, ◌≢◌,
}
use cpp_os.Sched.Thread.{
  int_sched, sched_int_handler, switch, take_ready, switch_to, load_space, update_time, move_to,
  Sched, Cpu, schedule, t_ready, t_destroy,
}
use cpp_os.Sched.Thread.Switch.{
  AllPlaced, IsRunning, IsLoaded, schedule_next, schedule-AllPlaced, schedule-IsLoaded,
}
use cpp_os.Sched.Thread.Fair.{schedules, round_robin}
use cpp_os.Sched.Elf.{
  Header, PHeader, Answers, elf_magic, create_process, new_thread, is_invalid, table_outside,
  load_elf,
}
use cpp_os.Sched.Elf.Outcome.{segments, AllLoadable, IsUndone, load_elf-outcome}
use cpp_os.Sched.Create.{
  Stacks, kernel_regs, init_stacks, init_lists, destroy_process, destroy_thread, Proc,
}
use cpp_os.Sched.Create.Ended.{destroy_process-AllPlaced}
use cpp_os.Sched.Spawn.{Spawned, add_thread, thread_init, new_thread as spawn_thread}
use cpp_os.Sched.Spawn.Lives.{born, begun, destroy_thread_dangles}
use cpp_os.Sched.Semaphore.{new_semaphore, lock}
use cpp_os.Sched.Semaphore.Mutex.{Users, Run, locks, start, step, at_most_n_inside, fresh}
use cpp_os.Sched.Process.{calls, new_process, Call, create, delete, find}
use cpp_os.Sched.Process.Table.{no_semaphores, refusal}

-- Thread 1 runs, 2 is ready, 3 and 4 sleep until 50 and 500; every other thread waits elsewhere.
abbrev four_threads : Sched
four_threads = record {
  threads = λ t. record {
    regs = 0;
    time = 0;
    state =
        if t == 1 then 0 else if t == 2 then 1 else if t == 3 then 3 else if t == 4 then 3 else 128;
    proc = 7;
    sleep_time = if t == 3 then 50 else 500;
  };
  t_list =
      λ k. if k == 0 then 1 ∷ [] else if k == 1 then 2 ∷ [] else if k == 3 then 3 ∷ 4 ∷ [] else [];
  thread_c = 1;
  post_c = 0;
  post_flag = false;
  nsec_last = 0;
  cr3 = 7;
}

abbrev at_100 : Cpu
at_100 = record { regs = 9; now = 100 }

four_threads-AllPlaced : AllPlaced four_threads
four_threads-AllPlaced t k ne = ground arith

schedule_next_example :
    let (out, s') = schedule four_threads 100 in
    (out ≡ some 2) × (s'.thread_c ≡ 2) × IsRunning s' × (s'.t_list t_ready ≡ 1 ∷ [])
schedule_next_example = schedule_next four_threads 100 2 [] refl refl (inl (refl, refl))

schedule-AllPlaced_example : AllPlaced (schedule four_threads 100).1
schedule-AllPlaced_example = schedule-AllPlaced four_threads 100 four_threads-AllPlaced

schedule-IsLoaded_example : IsLoaded (schedule four_threads 100).1
schedule-IsLoaded_example = schedule-IsLoaded four_threads 100 refl

-- Two threads lock a semaphore for one.
abbrev second : Sched
second = record four_threads {
  threads = λ t. record (four_threads.threads t) {
    state = if t == 1 then 1 else if t == 2 then 0 else (four_threads.threads t).state;
  };
  t_list = λ k. if k == 0 then 2 ∷ [] else if k == 1 then 1 ∷ [] else four_threads.t_list k;
  thread_c = 2;
}

abbrev one_lock : Users
one_lock = record { sem = (lock (new_semaphore 1) four_threads at_100).0; inside = 1 ∷ [] }

abbrev two_locks : Users
two_locks = record { sem = (lock one_lock.sem second at_100).0; inside = 1 ∷ [] }

two_locks-Run : Run (fresh 1) two_locks
unfolding lock new_semaphore int_sched sched_int_handler schedule switch take_ready switch_to
    load_space update_time move_to
two_locks-Run =
    step second at_100
      (step four_threads at_100 start (locks (refl, refl) (λ full. absurd (ground (arith, full)))))
      (locks (refl, refl) (λ full. (1, [], refl, refl, omega arith)))

at_most_n_inside_example :
    (length two_locks.inside ≤ 1) × ((two_locks.sem.t_waiting ≡ []) ⊎ (length two_locks.inside ≡ 1))
at_most_n_inside_example = at_most_n_inside 1 {u = two_locks} two_locks-Run

abbrev some_calls : List Call
some_calls = create 64 ∷ find 0 ∷ delete 0 ∷ create 96 ∷ []

no_semaphores_example : calls (new_process 1) some_calls ≡ some (map refusal some_calls)
no_semaphores_example = no_semaphores 1 some_calls

-- The ready thread 2 waits for no one.
round_robin_example :
    ((schedules four_threads (100 ∷ [])).thread_c ≡ 2)
    × IsRunning (schedules four_threads (100 ∷ []))
round_robin_example = round_robin [] 2 [] four_threads (100 ∷ []) refl (refl, refl) refl refl

-- A program at 2 ^ 40 with one segment to load.
abbrev elf_header : Header
elf_header = record {
  magic = elf_magic;
  bits = 2;
  endian = 1;
  abi = 0;
  arch = 0x3e;
  entry = 0x1000;
  p_hdr = 5000;
  p_hdr_entry_size = 56;
  p_hdr_n = 1;
}

-- Its segment has more bytes in the file than in memory.
abbrev elf_segments : ℕ → PHeader
elf_segments i = record {
  type = 1;
  flags = 5;
  p_offset = 100;
  p_vaddr = 0x1000;
  p_filesz = 200;
  p_memsz = 100;
}

abbrev all_succeed : Answers
all_succeed = record { process = 0x8000; thread = 0x9000; mem = λ _. 0x10000; mapped = λ _. true }

load_elf-outcome_example :
    let (out, calls) = load_elf all_succeed elf_segments (2 ^ 40) 4000 1 elf_header in
    ((out ≡ 0)
      × ((is_invalid elf_header || table_outside elf_header (2 ^ 40) 4000) ≡ true)
      × (calls ≡ []))
    ⊎ ((out ≡ 0) × (all_succeed.process ≡ 0) × (calls ≡ create_process 1 ∷ []))
    ⊎ ((out ≡ all_succeed.process)
        × (out ≢ 0)
        × (calls
            ≡ create_process 1 ∷ segments all_succeed elf_segments (2 ^ 40) 4000 1 1 0
              ++ (new_thread 0x1000 ∷ []))
        × AllLoadable all_succeed elf_segments (2 ^ 40) 4000 1 1 0)
    ⊎ ((out ≡ 0) × IsUndone calls)
load_elf-outcome_example = load_elf-outcome all_succeed elf_segments (2 ^ 40) 4000 1 elf_header

-- A new kernel thread, 9, with a stack at 2 ^ 20.
abbrev raw_stacks : Stacks
raw_stacks = record {
  regs = kernel_regs;
  stack_start = 0;
  stack_size = 262144;
  kstack_start = 0;
  kstack_size = 0;
  process_alive = true;
}

-- Thread 1 runs and 2 is ready; no other has ever been made.
abbrev two_threads : Sched
two_threads = record four_threads {
  threads = λ t. record {
    regs = 0;
    time = 0;
    state = if t == 1 then 0 else if t == 2 then 1 else 128;
    proc = 7;
    sleep_time = 0;
  };
  t_list = λ k. if k == 0 then 1 ∷ [] else if k == 1 then 2 ∷ [] else [];
}

-- The process of threads 1 and 3 ends.
-- The running thread's process ends, with threads 1 and 3.
destroy_process-AllPlaced_example :
    let (s', st') = destroy_process true [] (1 ∷ 3 ∷ []) (λ _. raw_stacks) four_threads at_100 in
    AllPlaced s'
    × ((t : ℕ) → IsIn t (1 ∷ 3 ∷ []) → t ≢ 1 → (s'.threads t).state ≡ t_destroy)
    × (true ≡ true → (s'.threads 1).state ≡ t_destroy)
    × (true ≡ false → s'.thread_c ≡ 1)
    × ((t : ℕ) → IsIn t (1 ∷ 3 ∷ []) → (st' t).process_alive ≡ false)
destroy_process-AllPlaced_example =
    destroy_process-AllPlaced true [] (1 ∷ 3 ∷ []) (λ _. raw_stacks) four_threads at_100
      four_threads-AllPlaced

-- Threads 3 and 4 are to be deleted.
abbrev two_dead : Sched
two_dead = record four_threads { t_list = λ k. if k == 2 then 3 ∷ 4 ∷ [] else [] }

abbrev one_process : ℕ → Proc
one_process p = record { threads = 1 ∷ 3 ∷ 4 ∷ []; sems = [] }

-- Thread 9 is the only one of its process.
abbrev only_thread : Spawned
only_thread = record {
  thread = 9;
  sched = init_lists true two_threads 9;
  stacks = init_stacks raw_stacks 2 0x400000 (2 ^ 20) (2 ^ 21);
  threads = 9 ∷ 9 ∷ [];
  freed = [];
  ended = false;
}

only_thread-new_thread :
    spawn_thread two_threads raw_stacks 2 0x400000 (2 ^ 20) (2 ^ 21) 9 true true []
    ≡ some only_thread
unfolding spawn_thread thread_init add_thread
only_thread-new_thread = refl

destroy_thread_dangles_example :
    let (freed, left, last) = destroy_thread raw_stacks (9 ∷ 9 ∷ []) 9 in
    IsIn 9 left × (last ≡ false)
destroy_thread_dangles_example =
    destroy_thread_dangles (9 ∷ []) (9 ∷ 9 ∷ []) 9 raw_stacks
      (born begun two_threads raw_stacks 2 0x400000 (2 ^ 20) (2 ^ 21) 9 only_thread
        only_thread-new_thread (λ e. absurd (ground (arith, e))))
      (inl refl) refl
