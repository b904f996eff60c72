-- ===== src/Sched/Thread/Fair.antt =====
-- Threads take turns.
use cpp_os.Base.{
  ℕ, suc, ◌≡◌, refl, ap, ◌∙◌, inl, true, List, [], ◌∷◌, ◌++◌, length, arith, ◌==◌, if◌then◌else◌,
}
use cpp_os.Sched.Thread.{
  Sched, t_ready, t_running, schedule, switch, move_to, update_time, take_ready, switch_to,
  load_space,
}
use cpp_os.Sched.Thread.Switch.{IsRunning, schedule_next}

-- A timer interrupt at each of the times, with the whole time slice used.
abbrev pub schedules : Sched → List ℕ → Sched
schedules s [] = s
schedules s (now ∷ nows) = schedules (schedule s now).1 nows

post_c-take_ready : (s : Sched) (l : List ℕ) → (take_ready s l).post_c ≡ s.post_c
unfolding take_ready switch_to
post_c-take_ready s [] = refl
post_c-take_ready s (x ∷ l) = refl

post_c-load_space : (s : Sched) (saved : ℕ) → (load_space s saved).post_c ≡ s.post_c
unfolding load_space
post_c-load_space s saved = ground arith

post_c-move_to : (s : Sched) (t k : ℕ) → (move_to s t k).post_c ≡ s.post_c
unfolding move_to
post_c-move_to s t k = ground arith

post_c-requeued :
    (s : Sched)
    → (if (s.threads s.thread_c).state == t_running then move_to s s.thread_c t_ready else s).post_c
      ≡ s.post_c
post_c-requeued s = ground (arith, post_c-move_to s s.thread_c t_ready)

post_c-switch : (s : Sched) (now : ℕ) → (switch s now).post_c ≡ s.post_c
unfolding switch update_time
post_c-switch s now =
    post_c-load_space _ _ ∙ post_c-take_ready _ _ ∙ post_c-requeued (update_time s now) ∙ refl

post_c-schedule : (s : Sched) (now : ℕ) → (schedule s now).1.post_c ≡ s.post_c
unfolding schedule
post_c-schedule s now = ground (arith, post_c-switch s now)

append_assoc :
    (xs : List ℕ) (t : ℕ) (ys zs : List ℕ) → (xs ++ (t ∷ ys)) ++ zs ≡ xs ++ (t ∷ (ys ++ zs))
append_assoc [] t ys zs = refl
append_assoc (x ∷ xs) t ys zs = ap (λ (l : List ℕ). x ∷ l) (append_assoc xs t ys zs)

-- Every ready thread gets its turn: if `xs` are the threads in front of `t` on the ready list, then
-- after one switch for each of them and one more `t` runs, in whatever order the others came and
-- whatever times the timer reads, while scheduling is not postponed and the threads that run in between
-- use up their time.
pub round_robin :
    (xs : List ℕ) (t : ℕ) (ys : List ℕ) (s : Sched) (nows : List ℕ)
    → s.post_c ≡ 0
    → IsRunning s
    → s.t_list t_ready ≡ xs ++ (t ∷ ys)
    → length nows ≡ suc (length xs)
    → ((schedules s nows).thread_c ≡ t) × IsRunning (schedules s nows)
round_robin xs t ys s [] open_ run e h = absurd (omega arith)
round_robin [] t ys s (now ∷ now' ∷ nows) open_ run e h = absurd (omega arith)
round_robin [] t ys s (now ∷ []) open_ run e h =
    let (_, c, r, _) = schedule_next s now t ys open_ e (inl run) in (c, r)
round_robin (x ∷ xs) t ys s (now ∷ nows) open_ run e h =
    let (_, c, r, l) = schedule_next s now x (xs ++ (t ∷ ys)) open_ e (inl run) in
    let was : ((s.threads s.thread_c).state == t_running) ≡ true = ground (arith, run.1) in
    round_robin xs t (ys ++ (s.thread_c ∷ [])) (schedule s now).1 nows
      (post_c-schedule s now ∙ open_) r (l ∙ rw was (append_assoc xs t ys (s.thread_c ∷ [])))
      (omega (arith, h))
