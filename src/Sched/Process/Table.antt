-- ===== src/Sched/Process/Table.antt =====
-- No process ever gets a semaphore.
use cpp_os.Base.{
  ℕ, ◌+◌, ◌≡◌, refl, some, List, [], ◌∷◌, ◌==◌, arith, if◌then◌else◌, map, Bool-cases, inl, inr,
}
use cpp_os.Util.ArrayList.{null, new_array_list, get, set_elem}
use cpp_os.Sched.Process.{
  Process, new_process, failed, advance, create_semaphore, delete_semaphore, get_semaphore, Call,
  create, delete, find, call, calls,
}

-- What a failure looks like to the caller.
abbrev pub refusal : Call → ℕ
refusal (create sem) = failed
refusal (delete id) = 0
refusal (find id) = null

-- With no entry in the table a free number is at most moved off 0.
advance_empty :
    (p : Process)
    → p.semaphores.len ≡ 0
    → advance p ≡ some (if p.free_id == 0 then p.free_id + 1 else p.free_id)
unfolding advance
advance_empty p e = ground arith

call_refused :
    (p : Process) (c : Call)
    → p.semaphores.len ≡ 0
    → (p' : Process) × (call p c ≡ some (refusal c, p')) × (p'.semaphores.len ≡ 0)
unfolding call create_semaphore delete_semaphore get_semaphore get set_elem
call_refused p (create sem) e = elim (Bool-cases (sem == null)) [
  | inl z ↦ (p, rw z, e)
  | inr nz ↦ (
    record p { free_id = if p.free_id == 0 then p.free_id + 1 else p.free_id },
    rw (nz, advance_empty p e) (ground arith),
    e,
  )
]
call_refused p (delete id) e = (p, ground arith, e)
call_refused p (find id) e = (p, ground arith, e)

calls_refused :
    (p : Process) (cs : List Call) → p.semaphores.len ≡ 0 → calls p cs ≡ some (map refusal cs)
unfolding calls
calls_refused p [] e = refl
calls_refused p (c ∷ cs) e =
    let (p', runs, e') = call_refused p c e in rw (runs, calls_refused p' cs e')

-- Whatever semaphore calls a process makes, each of them fails: `create_semaphore` stores at an
-- index below the length only, and nothing makes the table longer than it is at first, 0.
pub no_semaphores : (uid : ℕ) (cs : List Call) → calls (new_process uid) cs ≡ some (map refusal cs)
unfolding new_process new_array_list
no_semaphores uid cs = calls_refused (new_process uid) cs refl
