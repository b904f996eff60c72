-- ===== src/Machine/Tests.antt =====
-- The theorems on the parts next to the hardware at small states.
use cpp_os.Base.{ℕ, ◌≡◌, ◌≢◌, refl, List, [], ◌∷◌, arith}
use cpp_os.Machine.Spinlock.{new_spinlock, acts, Event, call_lock, run, exec, step, enter}
use cpp_os.Machine.Spinlock.Mutex.{one_inside}

-- Processor 1 takes the lock, and 2 spins.
abbrev two_callers : List Event
two_callers = call_lock 1 7 ∷ run 1 ∷ run 1 ∷ run 1 ∷ call_lock 2 7 ∷ run 2 ∷ run 2 ∷ []

one_inside_example : ◌≡◌ {A = ℕ} 1 1 × ((acts new_spinlock two_callers).locked ≢ 0)
unfolding new_spinlock exec step enter
one_inside_example = one_inside two_callers 1 1 (omega arith, (omega arith, tt)) refl refl
