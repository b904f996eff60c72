-- ===== src/Machine/Spinlock/Broken.antt =====
-- What is wrong with the lock: `al` is not loaded on one way into it, and the result of `try_lock`.
use cpp_os.Base.{ℕ, ◌≡◌, ◌≢◌, List, [], ◌∷◌, ◌==◌, if◌then◌else◌, arith}
use cpp_os.Machine.Spinlock.{
  inside, new_spinlock, exec, call_lock, run, call_unlock, enter, unlock, step, acts, Event,
  try_lock,
}

-- `p` takes the lock, `q` calls `lock` and spins, `p` leaves, `q` goes on and takes it, `r` takes it.
abbrev pub contended : ℕ → ℕ → ℕ → List Event
contended p q r =
    call_lock p 1
    ∷ run p
    ∷ run p
    ∷ run p
    ∷ call_lock q 0
    ∷ run q
    ∷ call_unlock p
    ∷ run q
    ∷ run q
    ∷ call_lock r 1
    ∷ run r
    ∷ run r
    ∷ run r
    ∷ []

-- A processor that calls `lock` with 0 in `al` while the lock is held jumps to the loop before `al`
-- is loaded, and then exchanges that 0 with the byte: the lock is taken and stays open. Any three
-- processors come to the point where two of them are inside.
pub two_inside :
    (p q r : ℕ)
    → p ≢ q
    → p ≢ r
    → q ≢ r
    → let s = acts new_spinlock (contended p q r) in (s.pc q ≡ inside) × (s.pc r ≡ inside)
unfolding new_spinlock exec enter unlock step
two_inside p q r a b c = ground (arith)

-- `try_lock` answers false whether it took the lock or not: where the byte was 0 it is 1 afterwards,
-- and otherwise it is as it was.
pub try_lock_false :
    (locked : ℕ)
    → let (result, locked') = try_lock locked in
      (result ≡ 0) × (locked' ≡ (if locked == 0 then 1 else locked))
unfolding try_lock exec enter step
try_lock_false locked = ground arith
