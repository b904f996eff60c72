-- ===== src/Machine/Spinlock.antt =====
-- src/arch/x64/sync/spinlock.asm and src/sync/spinlock.cpp: the instructions of the lock, one step
-- each, run by any number of processors in any order. A test of the register goes with the exchange
-- in front of it.
pub mod Mutex
pub mod Broken
use cpp_os.Base.{ℕ, ◌≡◌, ◌≢◌, List, [], ◌∷◌, ◌==◌, if◌then◌else◌}

-- Where a processor is: before the call or behind a failed try, in `spin_lock` at its first
-- comparison, at `mov al, 1`, at `.retry` and in `.spin_loop`, the same of `spin_try_lock`, or
-- holding the lock.
pub data Pc : Type 0 where
  outside entry load_al retry spin try_entry try_load_al try_retry inside : Pc

-- `locked`, and each processor's place and register `al`.
pub record Lock : Type 0 where
  pub locked : ℕ
  pub pc : ℕ → Pc
  pub al : ℕ → ℕ

-- `spinlock::spinlock ()`
unfoldable pub new_spinlock : Lock
new_spinlock = record { locked = 0; pc = λ _. outside; al = λ _. 0 }

-- One instruction: the next place, the register and the byte. `jnz .spin_loop` at the entry jumps
-- before `al` is loaded.
unfoldable pub exec : Pc → ℕ → ℕ → Pc × ℕ × ℕ
exec outside al locked = (outside, al, locked)
exec entry al locked = (if locked == 0 then load_al else spin, al, locked)
exec load_al al locked = (retry, 1, locked)
exec retry al locked = (if locked == 0 then inside else spin, locked, al)
exec spin al locked = (if locked == 0 then retry else spin, al, locked)
exec try_entry al locked = if locked == 0 then (try_load_al, al, locked) else (outside, 0, locked)
exec try_load_al al locked = (try_retry, 1, locked)
exec try_retry al locked = if locked == 0 then (inside, locked, al) else (outside, 0, al)
exec inside al locked = (inside, al, locked)

abbrev pub put : Lock → ℕ → Pc → ℕ → ℕ → Lock
put s p c a locked = record {
  locked = locked;
  pc = λ q. if q == p then c else s.pc q;
  al = λ q. if q == p then a else s.al q;
}

-- What a processor does: it calls `lock` with some value in `al`, it calls `try_lock`, it runs the
-- next instruction, or it calls `unlock`, which only a holder does.
pub data Event : Type 0 where
  call_lock : ℕ → ℕ → Event
  call_try_lock run call_unlock : ℕ → Event

-- `lock` and `try_lock` are called outside the lock.
unfoldable pub enter : Lock → ℕ → Pc → ℕ → Pc → Lock
enter s p to al outside = put s p to al s.locked
enter s p to al c = s

-- `void spinlock::unlock ()`
unfoldable pub unlock : Lock → ℕ → Pc → Lock
unlock s p inside = put s p outside (s.al p) 0
unlock s p c = s

unfoldable pub step : Lock → ℕ → Pc → Lock
step s p c = let (c', a, l) = exec c (s.al p) s.locked in put s p c' a l

abbrev pub act : Lock → Event → Lock
act s (call_lock p al) = enter s p entry al (s.pc p)
act s (call_try_lock p) = enter s p try_entry (s.al p) (s.pc p)
act s (run p) = step s p (s.pc p)
act s (call_unlock p) = unlock s p (s.pc p)

abbrev pub acts : Lock → List Event → Lock
acts s [] = s
acts s (e ∷ es) = acts (act s e) es

-- `bool spinlock::try_lock ()` by a processor that runs alone: its result, in `al`, and the byte.
unfoldable pub try_lock : ℕ → ℕ × ℕ
try_lock locked =
    let s =
      acts (record { locked = locked; pc = λ _. outside; al = λ _. 0 })
        (call_try_lock 0 ∷ run 0 ∷ run 0 ∷ run 0 ∷ []) in
    (s.al 0, s.locked)
