-- ===== src/Sched/Process.antt =====
-- src/sched/process.cpp: the table of semaphores of a process.
pub mod Table
use cpp_os.Base.{
  ℕ, zero, suc, ◌+◌, ◌-◌, ◌^◌, Bool, true, false, Option, some, List, [], ◌∷◌, ltb, ◌==◌,
  if◌then◌else◌,
}
use cpp_os.Util.ArrayList.{ArrayList, null, new_array_list, get, set_elem, ◌>>=◌}

-- The fields of `sched::process` that the semaphore calls use. A semaphore is its address.
pub record Process : Type 0 where
  pub uid : ℕ
  pub free_id : ℕ
  pub semaphores : ArrayList

-- `process (u8 uid)`
unfoldable pub new_process : ℕ → Process
new_process uid = record { uid = uid; free_id = 0; semaphores = new_array_list }

-- `usize` -1, which says that a call failed.
abbrev pub failed : ℕ
failed = 2 ^ 64 - 1

-- `for (; j < len; j ++)`: the first free place from `j` on, with `n` places left, or the length.
unfoldable pub next_free : ℕ → ℕ → ArrayList → Option ℕ
next_free zero j a = some j
next_free (suc n) j a = do
  s ← get a j
  let rest = next_free n (j + 1) a
  if s == null then some j else rest

-- The new `free_id` of `create_semaphore`. If `free_id` is past the length the loop makes no round
-- and `j` is not the length, so it stays.
unfoldable pub advance : Process → Option ℕ
advance p =
    let len = p.semaphores.len in
    let j = p.free_id + 1 in
    if p.free_id == len
    then some (p.free_id + 1)
    else if ltb len j
    then some p.free_id
    else next_free (len - j) j p.semaphores

-- `usize create_semaphore (usize n)`; `sem` is what `new semaphore (n)` returns.
unfoldable pub create_semaphore : Process → ℕ → Option (ℕ × Process)
create_semaphore p sem = if sem == null then some (failed, p) else (do
  free ← advance p
  (stored, a) ← set_elem p.semaphores p.free_id sem
  let p' = record p { free_id = free; semaphores = a }
  some (if stored then (p.free_id, p') else (failed, p')))

-- `bool delete_semaphore (usize id)`, less the waking of the waiting threads (`reset_ready`).
unfoldable pub delete_semaphore : Process → ℕ → Option (Bool × Process)
delete_semaphore p id = do
  s ← get p.semaphores id
  if s == null then some (false, p) else (do
    let free = (if ltb id p.free_id then id else p.free_id)
    (stored, a) ← set_elem p.semaphores id null
    some (true, record p { free_id = free; semaphores = a }))

-- `semaphore *get_semaphore (usize id)`
unfoldable pub get_semaphore : Process → ℕ → Option ℕ
get_semaphore p id = get p.semaphores id

-- The semaphore calls of a process, and what each returns.
pub data Call : Type 0 where
  create : ℕ → Call
  delete : ℕ → Call
  find : ℕ → Call

unfoldable pub call : Process → Call → Option (ℕ × Process)
call p (create sem) = create_semaphore p sem
call p (delete id) = do (done, p') ← delete_semaphore p id; some (if done then 1 else 0, p')
call p (find id) = do s ← get_semaphore p id; some (s, p)

unfoldable pub calls : Process → List Call → Option (List ℕ)
calls p [] = some []
calls p (c ∷ cs) = do (r, p') ← call p c; rs ← calls p' cs; some (r ∷ rs)
