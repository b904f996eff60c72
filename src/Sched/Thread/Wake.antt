-- ===== src/Sched/Thread/Wake.antt =====
-- The timer's handler wakes the threads whose time has come.
use cpp_os.Base.{
  ℕ, zero, suc, ◌+◌, ◌≡◌, ◌≢◌, ◌≤◌, refl, sym, ap, ap₂, fun_ext, ◌∙◌, true, false, List, [], ◌∷◌,
  ◌++◌, none, some, ==_refl, arith, ltb, leb, if◌then◌else◌, Bool-cases, inl, inr, length, get_or,
  length-append,
}
use native.Mathlib.Nat.{le_refl}
use cpp_os.Util.LinkedList.Access.{Cursor, is_right, read, after_remove, read-is_right}
use mathlib.Core.List.{append-nil, append_assoc}
use cpp_os.Sched.Thread.{
  Sched, Cpu, erase, move_to, t_ready, t_sleep, schedule, sched_int_handler, int_sched, unblock,
  wake_loop,
}
use cpp_os.Sched.Thread.Placed.{count, move_to-IsPlaced}
use cpp_os.Sched.Thread.Switch.{AllPlaced}

-- The rounds over the sleeping threads as a sequence.
unfoldable wake_each : ℕ → Sched → ℕ → ℕ → Cpu → Sched
wake_each zero s i nsec cpu = s
wake_each (suc fuel) s i nsec cpu =
    let temp = get_or (s.t_list t_sleep) i 0 in
    let wake = leb (s.threads temp).sleep_time nsec in
    let rest =
      wake_each fuel (if wake then unblock s temp cpu else s) (if wake then i else i + 1) nsec
        cpu in
    if ltb i (length (s.t_list t_sleep)) then rest else s

-- A round reads the node at its index, so the cursor stays right: it stands there, or it is unset where the
-- thread was woken.
wake_loop-wake_each :
    (fuel : ℕ) (s : Sched) (c : Cursor) (i nsec : ℕ) (cpu : Cpu)
    → is_right (s.t_list t_sleep) c ≡ true
    → let s' = wake_each fuel s i nsec cpu in
      (c' : Cursor) × (wake_loop fuel s c i nsec cpu ≡ some (s', c'))
      × (is_right (s'.t_list t_sleep) c' ≡ true)
unfolding wake_loop wake_each read after_remove
wake_loop-wake_each zero s c i nsec cpu right = (c, refl, right)
wake_loop-wake_each (suc fuel) s c i nsec cpu right =
    let temp = get_or (s.t_list t_sleep) i 0 in
    elim (Bool-cases (ltb i (length (s.t_list t_sleep)))) [
      | inr out ↦ rw (wake_loop, out) (c, refl, right)
      | inl inside ↦ elim (Bool-cases (leb (s.threads temp).sleep_time nsec)) [
        | inl due_now ↦
            let unset : after_remove (some (temp, i)) temp ≡ none =
              rw (after_remove, ==_refl temp) refl in
            rw (wake_loop, inside, read, right, due_now, unset)
              (wake_loop-wake_each fuel (unblock s temp cpu) none i nsec cpu refl)
        | inr early ↦
            rw (wake_loop, inside, read, right, early)
              (wake_loop-wake_each fuel s (some (temp, i)) (i + 1) nsec cpu
                (read-is_right (s.t_list t_sleep) i (ground (arith, inside))))
      ]
    ]

-- Of a list of sleeping threads, those whose time has come and those whose time has not, in order.
abbrev pub due : (ℕ → ℕ) → ℕ → List ℕ → List ℕ
due until nsec [] = []
due until nsec (t ∷ r) = if leb (until t) nsec then t ∷ due until nsec r else due until nsec r

abbrev pub pending : (ℕ → ℕ) → ℕ → List ℕ → List ℕ
pending until nsec [] = []
pending until nsec (t ∷ r) =
    if leb (until t) nsec then pending until nsec r else t ∷ pending until nsec r

abbrev pub until : Sched → ℕ → ℕ
until s t = (s.threads t).sleep_time

get_or-length : (pre : List ℕ) (t : ℕ) (r : List ℕ) → get_or (pre ++ (t ∷ r)) (length pre) 0 ≡ t
get_or-length [] t r = refl
get_or-length (x ∷ pre) t r = get_or-length pre t r

count-append : (t : ℕ) (xs ys : List ℕ) → count t (xs ++ ys) ≡ count t xs + count t ys
count-append t [] ys = omega arith
count-append t (x ∷ xs) ys = omega (arith, count-append t xs ys)

erase-append : (t : ℕ) (pre r : List ℕ) → count t pre ≡ 0 → erase t (pre ++ (t ∷ r)) ≡ pre ++ r
erase-append t [] r h = ground arith
erase-append t (x ∷ pre) r h = ground (arith, erase-append t pre r)

-- While scheduling is postponed `unblock` only moves the thread.
unblock_fields :
    (s : Sched) (t : ℕ) (cpu : Cpu) (u k : ℕ)
    → s.post_c ≢ 0
    → let s' = unblock s t cpu in
      (s'.t_list k ≡ (move_to s t t_ready).t_list k)
      × ((s'.threads u).state ≡ ((move_to s t t_ready).threads u).state)
      × (until s' u ≡ until s u)
      × (s'.post_c ≡ s.post_c)
unfolding unblock int_sched sched_int_handler schedule move_to
unblock_fields s t cpu u k h = ground arith

unblock-AllPlaced :
    (s : Sched) (t : ℕ) (cpu : Cpu) → s.post_c ≢ 0 → AllPlaced s → AllPlaced (unblock s t cpu)
unblock-AllPlaced s t cpu h p u k ne =
    ground (arith, unblock_fields s t cpu u k h, move_to-IsPlaced s t t_ready u (p t) (p u) k)

module _ (s : Sched) (cpu : Cpu) (t : ℕ) (pre r : List ℕ) (p : AllPlaced s) (held : s.post_c ≢ 0)
    (sleeping : s.t_list t_sleep ≡ pre ++ (t ∷ r)) where
  once : (count t pre ≡ 0) × ((s.threads t).state ≡ t_sleep)
  once = ground (arith, ap (count t) sleeping, count-append t pre (t ∷ r), p t t_sleep)

  woken_lists :
      ((unblock s t cpu).t_list t_sleep ≡ pre ++ r)
      × ((unblock s t cpu).t_list t_ready ≡ s.t_list t_ready ++ (t ∷ []))
  unfolding move_to
  woken_lists = ground (
    arith,
    once,
    unblock_fields s t cpu t t_sleep held,
    unblock_fields s t cpu t t_ready held,
    ap (erase t) sleeping,
    erase-append t pre r,
  )

until_same : (s : Sched) (t : ℕ) (cpu : Cpu) → s.post_c ≢ 0 → until (unblock s t cpu) ≡ until s
until_same s t cpu h = fun_ext (λ u. (unblock_fields s t cpu u 0 h).2)

-- What the loop leaves: the threads that are due have gone from the sleeping list to the end of
-- the ready list, in order, the others stay, and every thread is in the list of its state.
pub record Woken (s : Sched) (nsec : ℕ) (pre suf : List ℕ) (s' : Sched) : Type 0 where
  pub sleeping : s'.t_list t_sleep ≡ pre ++ pending (until s) nsec suf
  pub ready : s'.t_list t_ready ≡ s.t_list t_ready ++ due (until s) nsec suf
  pub placed : AllPlaced s'

Woken-due :
    (s : Sched) (t : ℕ) (cpu : Cpu) (nsec : ℕ) (pre r : List ℕ) (s' : Sched)
    → s.post_c ≢ 0
    → leb (until s t) nsec ≡ true
    → (unblock s t cpu).t_list t_ready ≡ s.t_list t_ready ++ (t ∷ [])
    → Woken (unblock s t cpu) nsec pre r s'
    → Woken s nsec pre (t ∷ r) s'
Woken-due s t cpu nsec pre r s' held late put w =
    let same = until_same s t cpu held in
    record {
      sleeping = rw late (w.sleeping ∙ ap (λ (f : ℕ → ℕ). pre ++ pending f nsec r) same);
      ready = rw late (
          w.ready
          ∙ ap₂ (λ (l : List ℕ) (f : ℕ → ℕ). l ++ due f nsec r) put same
          ∙ append_assoc (s.t_list t_ready) (t ∷ []) (due (until s) nsec r));
      placed = w.placed;
    }

Woken-pending :
    (s : Sched) (t : ℕ) (nsec : ℕ) (pre r : List ℕ) (s' : Sched)
    → leb (until s t) nsec ≡ false
    → Woken s nsec (pre ++ (t ∷ [])) r s'
    → Woken s nsec pre (t ∷ r) s'
Woken-pending s t nsec pre r s' early w = record {
  sleeping = rw early (w.sleeping ∙ append_assoc pre (t ∷ []) (pending (until s) nsec r));
  ready = rw early w.ready;
  placed = w.placed;
}

wake_each-Woken :
    (fuel : ℕ) (s : Sched) (i nsec : ℕ) (cpu : Cpu) (pre suf : List ℕ)
    → AllPlaced s
    → s.post_c ≢ 0
    → s.t_list t_sleep ≡ pre ++ suf
    → i ≡ length pre
    → length suf ≤ fuel
    → Woken s nsec pre suf (wake_each fuel s i nsec cpu)
unfolding wake_each
wake_each-Woken zero s i nsec cpu pre [] p held e at enough = record {
  sleeping = e;
  ready = sym (append-nil (s.t_list t_ready));
  placed = p;
}
wake_each-Woken zero s i nsec cpu pre (t ∷ r) p held e at enough = absurd (omega arith)
wake_each-Woken (suc fuel) s i nsec cpu pre [] p held e at enough =
    let past : ltb i (length (s.t_list t_sleep)) ≡ false =
      ground (arith, ap length e, length-append pre []) in
    rw past (record { sleeping = e; ready = sym (append-nil (s.t_list t_ready)); placed = p })
wake_each-Woken (suc fuel) s i nsec cpu pre (t ∷ r) p held e at enough =
    let inside : ltb i (length (s.t_list t_sleep)) ≡ true =
      ground (arith, ap length e, length-append pre (t ∷ r)) in
    let temp : get_or (s.t_list t_sleep) i 0 ≡ t =
      ap₂ (λ (l : List ℕ) (j : ℕ). get_or l j 0) e at ∙ get_or-length pre t r in
    elim (Bool-cases (leb (until s t) nsec)) [
      | inl late ↦
          let (moved, put) = woken_lists s cpu t pre r p held e in
          rw (inside, temp, late)
            (Woken-due s t cpu nsec pre r _ held late put (
              wake_each-Woken fuel (unblock s t cpu) i nsec cpu pre r
                (unblock-AllPlaced s t cpu held p)
                (λ z. held (sym (unblock_fields s t cpu 0 0 held).3 ∙ z)) moved at (omega arith)))
      | inr early ↦
          rw (inside, temp, early)
            (Woken-pending s t nsec pre r _ early (
              wake_each-Woken fuel s (i + 1) nsec cpu (pre ++ (t ∷ [])) r p held
                (e ∙ sym (append_assoc pre (t ∷ []) r)) (omega (arith, length-append pre (t ∷ [])))
                (omega arith)))
    ]

-- The loop of the timer's handler returns, and the cursor of the sleeping threads' list is right afterwards.
pub wake_loop-Woken :
    (s : Sched) (c : Cursor) (nsec : ℕ) (cpu : Cpu)
    → AllPlaced s
    → s.post_c ≢ 0
    → is_right (s.t_list t_sleep) c ≡ true
    → (s' : Sched) × (c' : Cursor) × (wake_loop (length (s.t_list t_sleep)) s c 0 nsec cpu
        ≡ some (s', c'))
      × Woken s nsec [] (s.t_list t_sleep) s'
      × (is_right (s'.t_list t_sleep) c' ≡ true)
wake_loop-Woken s c nsec cpu p held right =
    let n = length (s.t_list t_sleep) in
    let (c', run, right') = wake_loop-wake_each n s c 0 nsec cpu right in
    (
      wake_each n s 0 nsec cpu,
      c',
      run,
      wake_each-Woken n s 0 nsec cpu [] (s.t_list t_sleep) p held refl refl (le_refl _),
      right',
    )
