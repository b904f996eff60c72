-- ===== src/Sched/Thread/Switch.antt =====
-- What `schedule` does to the lists, the running thread and the address space.
use cpp_os.Base.{
  ℕ, ◌≡◌, ◌≢◌, refl, sym, ap, ap₂, ◌∙◌, true, none, some, List, [], ◌∷◌, ◌++◌, arith, ◌==◌,
  if◌then◌else◌, Bool-cases, inl, inr, ne→==, ◌⊎◌, length,
}
use cpp_os.Sched.Thread.{
  Sched, erase, move_to, t_ready, t_running, update_time, switch_to, take_ready, load_space, switch,
  schedule,
}
use cpp_os.Sched.Thread.Placed.{count, IsPlaced, count-append, move_to-IsPlaced}

abbrev pub AllPlaced : Sched → Type 0
AllPlaced s = (t : ℕ) → IsPlaced s t

-- The running thread is the one in the running list.
abbrev pub IsRunning : Sched → Type 0
IsRunning s = (s.t_list t_running ≡ s.thread_c ∷ []) × ((s.threads s.thread_c).state ≡ t_running)

-- The page table of the running thread's process is loaded.
abbrev pub IsLoaded : Sched → Type 0
IsLoaded s = s.cr3 ≡ (s.threads s.thread_c).proc

update_time-AllPlaced : (s : Sched) (now : ℕ) → AllPlaced s → AllPlaced (update_time s now)
unfolding update_time
update_time-AllPlaced s now p t k ne = ground (arith, p t k)

switch_to-AllPlaced :
    (s : Sched) (next : ℕ) (rest : List ℕ)
    → s.t_list t_ready ≡ next ∷ rest
    → AllPlaced s
    → AllPlaced (switch_to s next rest)
unfolding switch_to
switch_to-AllPlaced s next rest e p t k ne = ground (
  arith,
  p t k,
  p next t_ready,
  p next k,
  ap (count t) e,
  ap (count next) e,
  count-append t (s.t_list k) next,
)

-- The first list after the running thread is moved behind the ready ones.
moved_lists :
    (s : Sched)
    → IsRunning s
    → let s' = move_to s s.thread_c t_ready in
      (s'.t_list t_ready ≡ s.t_list t_ready ++ (s.thread_c ∷ []))
      × (s'.t_list t_running ≡ [])
      × (s'.thread_c ≡ s.thread_c)
unfolding move_to
moved_lists s (run, st) = ground (arith, ap (erase s.thread_c) run)

move_to-proc :
    (s : Sched) (t k u : ℕ)
    → (((move_to s t k).threads u).proc ≡ (s.threads u).proc)
      × ((move_to s t k).cr3 ≡ s.cr3)
      × ((move_to s t k).thread_c ≡ s.thread_c)
unfolding move_to
move_to-proc s t k u = ground arith

update_time-same :
    (s : Sched) (now u : ℕ)
    → (((update_time s now).threads u).proc ≡ (s.threads u).proc)
      × (((update_time s now).threads u).state ≡ (s.threads u).state)
unfolding update_time
update_time-same s now u = ground arith

update_time-lists :
    (s : Sched) (now : ℕ)
    → ((update_time s now).t_list ≡ s.t_list)
      × ((update_time s now).thread_c ≡ s.thread_c)
      × ((update_time s now).cr3 ≡ s.cr3)
unfolding update_time
update_time-lists s now = (refl, refl, refl)

-- The state that the first ready thread is taken from.
before : Sched → ℕ → Sched
before s now =
    let s₁ = update_time s now in
    if (s₁.threads s₁.thread_c).state == t_running then move_to s₁ s₁.thread_c t_ready else s₁

switch_steps :
    (s : Sched) (now next : ℕ) (rest : List ℕ)
    → (before s now).t_list t_ready ≡ next ∷ rest
    → switch s now ≡ load_space (switch_to (before s now) next rest) (s.threads s.thread_c).proc
unfolding switch before update_time
switch_steps s now next rest e =
    ap₂ load_space (ap (take_ready (before s now)) e ∙ unfold take_ready in refl)
      (update_time-same s now s.thread_c).0

load_space-same :
    (s : Sched) (saved : ℕ)
    → ((load_space s saved).t_list ≡ s.t_list)
      × ((load_space s saved).threads ≡ s.threads)
      × ((load_space s saved).thread_c ≡ s.thread_c)
unfolding load_space
load_space-same s saved = ground arith

switch_to-fields :
    (s : Sched) (next : ℕ) (rest xs : List ℕ)
    → s.t_list t_running ≡ xs
    → let s' = switch_to s next rest in
      (s'.thread_c ≡ next)
      × (s'.t_list t_ready ≡ rest)
      × (s'.t_list t_running ≡ xs ++ (next ∷ []))
      × ((s'.threads next).state ≡ t_running)
      × ((s'.threads next).proc ≡ (s.threads next).proc)
      × (s'.cr3 ≡ s.cr3)
unfolding switch_to
switch_to-fields s next rest xs e = ground (arith, ap (λ (l : List ℕ). l ++ (next ∷ [])) e)

-- After the first ready thread is taken, in either case.
switch_fields :
    (s : Sched) (now next : ℕ) (rest : List ℕ)
    → (before s now).t_list t_ready ≡ next ∷ rest
    → (before s now).t_list t_running ≡ []
    → let s' = switch s now in (s'.thread_c ≡ next) × (s'.t_list t_ready ≡ rest) × IsRunning s'
switch_fields s now next rest e none_running =
    let saved = (s.threads s.thread_c).proc in
    let t = switch_to (before s now) next rest in
    let (c, ready, running, state, proc, cr3) =
      switch_to-fields (before s now) next rest [] none_running in
    let (lists, threads, current) = load_space-same t saved in
    rw (switch_steps s now next rest e, lists, threads, current, c, ready, running, state)
      (refl, refl, (refl, refl))

before_preempted :
    (s : Sched) (now : ℕ)
    → IsRunning s
    → ((before s now).t_list t_ready ≡ s.t_list t_ready ++ (s.thread_c ∷ []))
      × ((before s now).t_list t_running ≡ [])
unfolding before
before_preempted s now (run, st) =
    let (lists, c, cr3) = update_time-lists s now in
    let same : ((update_time s now).threads (update_time s now).thread_c).state ≡ t_running =
      ap (λ (t : ℕ). ((update_time s now).threads t).state) c
      ∙ (update_time-same s now s.thread_c).1
      ∙ st in
    let (ready, running, c') =
      moved_lists (update_time s now)
        (ap (λ (f : ℕ → List ℕ). f t_running) lists ∙ run ∙ ap (λ (t : ℕ). t ∷ []) (sym c), same) in
    rw same (ready ∙ ap₂ (λ (f : ℕ → List ℕ) (t : ℕ). f t_ready ++ (t ∷ [])) lists c, running)

before_blocked :
    (s : Sched) (now : ℕ)
    → (s.threads s.thread_c).state ≢ t_running
    → (before s now).t_list ≡ s.t_list
unfolding before update_time
before_blocked s now ne = ground arith

schedule_open :
    (s : Sched) (now next : ℕ) (rest : List ℕ)
    → s.post_c ≡ 0
    → s.t_list t_ready ≡ next ∷ rest
    → schedule s now ≡ (some (switch s now).thread_c, switch s now)
unfolding schedule
schedule_open s now next rest open_ e = ground (arith, ap length e)

-- `schedule`, while scheduling is not postponed and a thread is ready, runs the first ready
-- thread. The current thread, if it is still running, goes to the end of the ready list; if it has
-- left the running list before, which then is empty, it is not put back. The running list is the new
-- thread alone.
pub schedule_next :
    (s : Sched) (now next : ℕ) (rest : List ℕ)
    → s.post_c ≡ 0
    → s.t_list t_ready ≡ next ∷ rest
    → IsRunning s ⊎ ((s.t_list t_running ≡ []) × ((s.threads s.thread_c).state ≢ t_running))
    → let (out, s') = schedule s now in
      (out ≡ some next)
      × (s'.thread_c ≡ next)
      × IsRunning s'
      × (s'.t_list t_ready
          ≡ (if (s.threads s.thread_c).state == t_running then rest ++ (s.thread_c ∷ []) else rest))
schedule_next s now next rest open_ e (inl run) =
    let (ready, none_left) = before_preempted s now run in
    let (c, lists, running) =
      switch_fields s now next (rest ++ (s.thread_c ∷ []))
        (ready ∙ ap (λ (l : List ℕ). l ++ (s.thread_c ∷ [])) e) none_left in
    rw (schedule_open s now next rest open_ e, run.1) (ap some c, c, running, lists)
schedule_next s now next rest open_ e (inr (empty, ne)) =
    let same = before_blocked s now ne in
    let (c, lists, running) =
      switch_fields s now next rest (ap (λ (f : ℕ → List ℕ). f t_ready) same ∙ e)
        (ap (λ (f : ℕ → List ℕ). f t_running) same ∙ empty) in
    rw (schedule_open s now next rest open_ e, ne→== _ _ ne) (ap some c, c, running, lists)

-- While `lock_all` holds, or with no thread ready, `schedule` switches nothing; in the first case
-- it notes that it was asked.
pub schedule_postponed :
    (s : Sched) (now : ℕ) → s.post_c ≢ 0 → schedule s now ≡ (none, record s { post_flag = true })
unfolding schedule
schedule_postponed s now ne = ground arith

before-AllPlaced : (s : Sched) (now : ℕ) → AllPlaced s → AllPlaced (before s now)
unfolding before
before-AllPlaced s now p =
    let p₁ = update_time-AllPlaced s now p in
    let s₁ = update_time s now in
    elim (Bool-cases ((s₁.threads s₁.thread_c).state == t_running)) [
      | inl e ↦ rw e (λ t. move_to-IsPlaced s₁ s₁.thread_c t_ready t (p₁ s₁.thread_c) (p₁ t))
      | inr e ↦ rw e p₁
    ]

load_space-AllPlaced : (s : Sched) (saved : ℕ) → AllPlaced s → AllPlaced (load_space s saved)
unfolding load_space
load_space-AllPlaced s saved p t k ne = ground (arith, p t k)

take_ready-AllPlaced :
    (s : Sched) (l : List ℕ) → s.t_list t_ready ≡ l → AllPlaced s → AllPlaced (take_ready s l)
unfolding take_ready
take_ready-AllPlaced s [] e p = p
take_ready-AllPlaced s (next ∷ rest) e p = switch_to-AllPlaced s next rest e p

switch-AllPlaced : (s : Sched) (now : ℕ) → AllPlaced s → AllPlaced (switch s now)
unfolding switch before
switch-AllPlaced s now p =
    load_space-AllPlaced (take_ready b (b.t_list t_ready)) _
      (take_ready-AllPlaced b (b.t_list t_ready) refl (before-AllPlaced s now p))
  where
    b : Sched
    b = before s now

-- `schedule` keeps every thread in the list of its state.
pub schedule-AllPlaced : (s : Sched) (now : ℕ) → AllPlaced s → AllPlaced (schedule s now).1
unfolding schedule
schedule-AllPlaced s now p t k ne = ground (arith, p t k, switch-AllPlaced s now p t k)

load_space-IsLoaded : (s : Sched) (saved : ℕ) → s.cr3 ≡ saved → IsLoaded (load_space s saved)
unfolding load_space
load_space-IsLoaded s saved h = ground arith

cr3-take_ready : (s : Sched) (l : List ℕ) → (take_ready s l).cr3 ≡ s.cr3
unfolding take_ready switch_to
cr3-take_ready s [] = refl
cr3-take_ready s (x ∷ l) = refl

cr3-before : (s : Sched) (now : ℕ) → (before s now).cr3 ≡ s.cr3
unfolding before
cr3-before s now = ground (
  arith,
  update_time-lists s now,
  move_to-proc (update_time s now) (update_time s now).thread_c t_ready 0,
)

switch-IsLoaded : (s : Sched) (now : ℕ) → IsLoaded s → IsLoaded (switch s now)
unfolding switch before update_time
switch-IsLoaded s now h =
    let b = before s now in
    load_space-IsLoaded (take_ready b (b.t_list t_ready)) _ (
      cr3-take_ready b (b.t_list t_ready)
      ∙ cr3-before s now
      ∙ h
      ∙ sym (update_time-same s now s.thread_c).0)

-- `schedule` keeps the page table of the running thread's process loaded: if it was loaded before,
-- that of the thread that runs afterwards is.
pub schedule-IsLoaded : (s : Sched) (now : ℕ) → IsLoaded s → IsLoaded (schedule s now).1
unfolding schedule
schedule-IsLoaded s now h = ground (arith, switch-IsLoaded s now h)
