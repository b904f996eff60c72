-- ===== src/Sched/Spawn/Lives.antt =====
-- The threads of a process over its life.
use cpp_os.Base.{
  ℕ, ◌+◌, ◌≤◌, ◌≡◌, ◌≢◌, refl, inl, inr, true, false, Option, none, some, List, [], ◌∷◌, ◌++◌, ◌==◌,
  arith, IsIn, Bool-cases, sym, ◌∙◌, ap, ne→==, subst, ==→eq, ==→ne, length,
}
use cpp_os.Sched.Thread.{Sched, erase}
use cpp_os.Sched.Thread.Placed.{count, count-append, count-erase_ne}
use cpp_os.Sched.Create.{Stacks, rem_thread, destroy_thread}
use cpp_os.Sched.Spawn.{Spawned, add_thread, thread_init, new_thread}

-- The threads that exist, and those that the process has on its list, after threads were made and
-- destroyed.
pub data Life : List ℕ → List ℕ → Type 0 where
  begun : Life [] []
  born :
      {live threads : List ℕ}
      → Life live threads
      → (s : Sched) (raw : Stacks) (uid func stack kstack t : ℕ) (out : Spawned)
      → new_thread s raw uid func stack kstack t true true threads ≡ some out
      → t ≢ 0
      → Life (t ∷ live) out.threads
  died :
      {live threads : List ℕ}
      → Life live threads
      → (t : ℕ) (st : Stacks) → IsIn t live
      → st.process_alive ≡ true
      → Life (erase t live) (destroy_thread st threads t).1

count-erase_in : (t : ℕ) (xs : List ℕ) → IsIn t xs → count t (erase t xs) + 1 ≡ count t xs
count-erase_in t [] i = absurd i
count-erase_in t (x ∷ xs) i = elim (Bool-cases (x == t)) [
  | inl same ↦ rw same (omega arith)
  | inr other ↦ elim i [
    | inl e ↦ absurd (ground (arith, e, other))
    | inr j ↦ ground (arith, other, count-erase_in t xs j)
  ]
]

IsIn-count : (t : ℕ) (xs : List ℕ) → 1 ≤ count t xs → IsIn t xs
IsIn-count t [] h = absurd (omega arith)
IsIn-count t (x ∷ xs) h = elim (Bool-cases (x == t)) [
  | inl same ↦ inl (sym (==→eq x t same))
  | inr other ↦ inr (IsIn-count t xs (ground (arith, other)))
]

count-IsIn : (t : ℕ) (xs : List ℕ) → IsIn t xs → 1 ≤ count t xs
count-IsIn t xs i = omega (arith, count-erase_in t xs i)

abbrev threads_of : Option Spawned → List ℕ
threads_of none = []
threads_of (some out) = out.threads

-- A thread is added twice.
new_thread-threads :
    (s : Sched) (raw : Stacks) (uid func stack kstack t : ℕ) (threads : List ℕ) (out : Spawned)
    → new_thread s raw uid func stack kstack t true true threads ≡ some out
    → t ≢ 0
    → out.threads ≡ (threads ++ (t ∷ [])) ++ (t ∷ [])
unfolding new_thread thread_init add_thread
new_thread-threads s raw uid func stack kstack t threads out e ne =
    let some_thread : (t == 0) ≡ false = ne→== t 0 ne in
    let made : threads_of (new_thread s raw uid func stack kstack t true true threads)
        ≡ (threads ++ (t ∷ [])) ++ (t ∷ []) =
      rw some_thread refl in
    sym (ap threads_of e) ∙ made

twice :
    {live threads : List ℕ}
    → Life live threads
    → (t : ℕ) → count t live + count t live ≤ count t threads
unfolding destroy_thread rem_thread
twice begun t = omega arith
twice (born {live} {threads} l s raw uid func stack kstack u out e ne) t =
    rw (new_thread-threads s raw uid func stack kstack u threads out e ne)
      (omega (arith, twice l t, count-append t threads u, count-append t (threads ++ (u ∷ [])) u))
twice (died {live} {threads} l u st i alive) t = elim (Bool-cases (u == t)) [
  | inl same ↦
      let e = ==→eq u t same in
      let has = subst (λ v. IsIn v live) e i in
      let listed = IsIn-count t threads (omega (arith, twice l t, count-IsIn t live has)) in
      rw (alive, e)
        (omega (arith, twice l t, count-erase_in t live has, count-erase_in t threads listed))
  | inr other ↦
      let ne = ==→ne u t other in
      rw alive (omega (arith, twice l t, count-erase_ne t u live ne, count-erase_ne t u threads ne))
]

-- A thread that is destroyed leaves a pointer to it on its process's list, and the process is not
-- deleted, although that thread may be its last: the process was made, and then threads were made by
-- `new_thread`, with memory for every node, and destroyed, in any order.
pub destroy_thread_dangles :
    (live threads : List ℕ) (t : ℕ) (st : Stacks)
    → Life live threads
    → IsIn t live
    → st.process_alive ≡ true
    → let (freed, left, last) = destroy_thread st threads t in IsIn t left × (last ≡ false)
unfolding destroy_thread rem_thread
destroy_thread_dangles live threads t st l i alive =
    let more : 2 ≤ count t threads = omega (arith, twice l t, count-IsIn t live i) in
    let listed = IsIn-count t threads (omega (arith, more)) in
    let left =
      IsIn-count t (erase t threads) (omega (arith, more, count-erase_in t threads listed)) in
    rw alive (left, some_left (erase t threads) left)
  where
    some_left : (xs : List ℕ) → IsIn t xs → (length xs == 0) ≡ false
    some_left [] j = absurd j
    some_left (x ∷ xs) j = ground arith
