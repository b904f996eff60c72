-- ===== src/Sched/Thread/Placed.antt =====
-- Each thread stands in the list of its state, once, and in no other.
use cpp_os.Base.{ℕ, ◌+◌, ◌≡◌, ◌≢◌, refl, List, [], ◌∷◌, ◌++◌, arith, ◌==◌, if◌then◌else◌}
use cpp_os.Sched.Thread.{Sched, erase, move_to, t_semaphore_wait}

abbrev pub count : ℕ → List ℕ → ℕ
count t [] = 0
count t (u ∷ us) = (if u == t then 1 else 0) + count t us

-- The waiting state has no list in the scheduler.
abbrev pub IsPlaced : Sched → ℕ → Type 0
IsPlaced s t =
    (k : ℕ)
    → k ≢ t_semaphore_wait
    → count t (s.t_list k) ≡ (if (s.threads t).state == k then 1 else 0)

pub count-append :
    (t : ℕ) (xs : List ℕ) (u : ℕ)
    → count t (xs ++ (u ∷ [])) ≡ count t xs + (if u == t then 1 else 0)
count-append t [] u = omega arith
count-append t (x ∷ xs) u = omega (arith, count-append t xs u)

pub count-erase_ne : (t u : ℕ) (xs : List ℕ) → u ≢ t → count t (erase u xs) ≡ count t xs
count-erase_ne t u [] ne = refl
count-erase_ne t u (x ∷ xs) ne = ground (arith, count-erase_ne t u xs)

pub count-erase_self : (t : ℕ) (xs : List ℕ) → count t xs ≡ 1 → count t (erase t xs) ≡ 0
count-erase_self t [] h = absurd (omega arith)
count-erase_self t (x ∷ xs) h = ground (arith, count-erase_self t xs)

-- `move_to` keeps every thread in the list of its state: the one that is moved and any other.
pub move_to-IsPlaced :
    (s : Sched) (t k u : ℕ) → IsPlaced s t → IsPlaced s u → IsPlaced (move_to s t k) u
unfolding move_to
move_to-IsPlaced s t k u pt pu j ne = ground (
  arith,
  pt j,
  pu j,
  count-append u (s.t_list j) t,
  count-erase_ne u t (s.t_list j),
  count-erase_self t (s.t_list j),
)
