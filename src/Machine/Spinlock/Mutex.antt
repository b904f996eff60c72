-- ===== src/Machine/Spinlock/Mutex.antt =====
-- Mutual exclusion, as long as no processor calls `lock` with 0 in `al`.
use cpp_os.Base.{
  ℕ, ◌≡◌, ◌≢◌, refl, Bool, true, false, List, [], ◌∷◌, ◌==◌, arith, ap, inl, inr, Bool-cases, ==→eq,
  ==→ne,
}
use cpp_os.Machine.Spinlock.{
  Pc, outside, entry, load_al, retry, spin, try_entry, try_load_al, try_retry, inside, Lock,
  new_spinlock, exec, put, Event, call_lock, call_try_lock, run, call_unlock, enter, unlock, step,
  acts,
}

-- Places where the register is about to be exchanged with the lock.
abbrev armed : Pc → Bool
armed entry = true
armed retry = true
armed spin = true
armed try_retry = true
armed c = false

abbrev holds : Pc → Bool
holds inside = true
holds c = false

abbrev pub IsExclusive : Lock → Type 0
IsExclusive s =
    (p : ℕ)
    → (holds (s.pc p) ≡ true → s.locked ≢ 0)
      × ((q : ℕ) → holds (s.pc p) ≡ true → holds (s.pc q) ≡ true → p ≡ q)
      × (armed (s.pc p) ≡ true → s.al p ≢ 0)

put-IsExclusive :
    (s : Lock) (p : ℕ) (c : Pc) (a l : ℕ)
    → IsExclusive s
    → ((q : ℕ) → q ≢ p → holds (s.pc q) ≡ true → l ≢ 0)
    → (holds c ≡ true → (l ≢ 0) × ((q : ℕ) → q ≢ p → holds (s.pc q) ≢ true))
    → (armed c ≡ true → a ≢ 0)
    → IsExclusive (put s p c a l)
put-IsExclusive s p c a l i others taken loaded q = elim (Bool-cases (q == p)) [
  | inl e ↦ rw e (
    λ h. (taken h).0,
    λ r h k. elim (Bool-cases (r == p)) [
      | inl e' ↦ ground arith
      | inr ne ↦ absurd ((taken h).1 r (==→ne r p ne) (ground (arith, k)))
    ],
    loaded,
  )
  | inr ne ↦ rw ne (
    λ h. others q (ground arith) h,
    λ r h k. elim (Bool-cases (r == p)) [
      | inl e' ↦ absurd ((taken (ground (arith, k))).1 q (==→ne q p ne) h)
      | inr ne' ↦ (i q).1 r h (ground (arith, k))
    ],
    (i q).2,
  )
]

-- A step that leaves the lock closed, or as it was, and takes nothing.
keeps :
    (s : Lock) (p : ℕ) (c : Pc) (a l : ℕ)
    → IsExclusive s
    → (s.locked ≢ 0 → l ≢ 0)
    → holds c ≡ false
    → (armed c ≡ true → a ≢ 0)
    → IsExclusive (put s p c a l)
keeps s p c a l i closed idle loaded =
    put-IsExclusive s p c a l i (λ q ne h. closed ((i q).0 h))
      (λ h. absurd (ground (arith, h, idle))) loaded

step-IsExclusive :
    (s : Lock) (p : ℕ) (c : Pc) → s.pc p ≡ c → IsExclusive s → IsExclusive (step s p c)
unfolding step exec
step-IsExclusive s p outside e i = keeps s p outside _ _ i (λ h. h) refl (λ h. ground arith)
step-IsExclusive s p entry e i =
    let al_set = (i p).2 (ap armed e) in
    elim (Bool-cases (s.locked == 0)) [
      | inl z ↦ rw z (keeps s p load_al _ _ i (λ h. h) refl (λ h. al_set))
      | inr z ↦ rw z (keeps s p spin _ _ i (λ h. h) refl (λ h. al_set))
    ]
step-IsExclusive s p load_al e i =
    keeps s p retry 1 s.locked i (λ h. h) refl (λ h z. omega (arith, z))
step-IsExclusive s p retry e i =
    let al_set = (i p).2 (ap armed e) in
    elim (Bool-cases (s.locked == 0)) [
      | inl z ↦ rw z (
          put-IsExclusive s p inside s.locked (s.al p) i (λ q ne h. al_set)
            (λ h. (al_set, λ q ne k. (i q).0 k (==→eq s.locked 0 z)))
            (λ h. absurd (ground (arith, h))))
      | inr z ↦
          rw z (keeps s p spin s.locked (s.al p) i (λ h. al_set) refl (λ h. ==→ne s.locked 0 z))
    ]
step-IsExclusive s p spin e i =
    let al_set = (i p).2 (ap armed e) in
    elim (Bool-cases (s.locked == 0)) [
      | inl z ↦ rw z (keeps s p retry _ _ i (λ h. h) refl (λ h. al_set))
      | inr z ↦ rw z (keeps s p spin _ _ i (λ h. h) refl (λ h. al_set))
    ]
step-IsExclusive s p try_entry e i = elim (Bool-cases (s.locked == 0)) [
  | inl z ↦ rw z (keeps s p try_load_al _ _ i (λ h. h) refl (λ h. absurd (ground (arith, h))))
  | inr z ↦ rw z (keeps s p outside _ _ i (λ h. h) refl (λ h. absurd (ground (arith, h))))
]
step-IsExclusive s p try_load_al e i =
    keeps s p try_retry 1 s.locked i (λ h. h) refl (λ h z. omega (arith, z))
step-IsExclusive s p try_retry e i =
    let al_set = (i p).2 (ap armed e) in
    elim (Bool-cases (s.locked == 0)) [
      | inl z ↦ rw z (
          put-IsExclusive s p inside s.locked (s.al p) i (λ q ne h. al_set)
            (λ h. (al_set, λ q ne k. (i q).0 k (==→eq s.locked 0 z)))
            (λ h. absurd (ground (arith, h))))
      | inr z ↦
          rw z (keeps s p outside 0 (s.al p) i (λ h. al_set) refl (λ h. absurd (ground (arith, h))))
    ]
step-IsExclusive s p inside e i =
    put-IsExclusive s p inside (s.al p) s.locked i (λ q ne h. (i q).0 h)
      (λ h. ((i p).0 (ap holds e), λ q ne k. ne ((i q).1 p k (ap holds e))))
      (λ h. absurd (ground (arith, h)))

enter-IsExclusive :
    (s : Lock) (p : ℕ) (to : Pc) (a : ℕ) (c : Pc)
    → holds to ≡ false
    → (armed to ≡ true → a ≢ 0)
    → IsExclusive s
    → IsExclusive (enter s p to a c)
unfolding enter
enter-IsExclusive s p to a outside idle loaded i = keeps s p to a s.locked i (λ h. h) idle loaded
enter-IsExclusive s p to a entry idle loaded i = i
enter-IsExclusive s p to a load_al idle loaded i = i
enter-IsExclusive s p to a retry idle loaded i = i
enter-IsExclusive s p to a spin idle loaded i = i
enter-IsExclusive s p to a try_entry idle loaded i = i
enter-IsExclusive s p to a try_load_al idle loaded i = i
enter-IsExclusive s p to a try_retry idle loaded i = i
enter-IsExclusive s p to a inside idle loaded i = i

unlock-IsExclusive :
    (s : Lock) (p : ℕ) (c : Pc) → s.pc p ≡ c → IsExclusive s → IsExclusive (unlock s p c)
unfolding unlock
unlock-IsExclusive s p inside e i =
    put-IsExclusive s p outside (s.al p) 0 i (λ q ne k. absurd (ne ((i q).1 p k (ap holds e))))
      (λ h. absurd (ground (arith, h))) (λ h. absurd (ground (arith, h)))
unlock-IsExclusive s p outside e i = i
unlock-IsExclusive s p entry e i = i
unlock-IsExclusive s p load_al e i = i
unlock-IsExclusive s p retry e i = i
unlock-IsExclusive s p spin e i = i
unlock-IsExclusive s p try_entry e i = i
unlock-IsExclusive s p try_load_al e i = i
unlock-IsExclusive s p try_retry e i = i

-- Every call of `lock` finds something other than 0 in `al`.
abbrev pub AllLoaded : List Event → Type 0
AllLoaded [] = Unit {0}
AllLoaded (call_lock p al ∷ es) = (al ≢ 0) × AllLoaded es
AllLoaded (call_try_lock p ∷ es) = AllLoaded es
AllLoaded (run p ∷ es) = AllLoaded es
AllLoaded (call_unlock p ∷ es) = AllLoaded es

acts-IsExclusive :
    (es : List Event) (s : Lock) → AllLoaded es → IsExclusive s → IsExclusive (acts s es)
acts-IsExclusive [] s a i = i
acts-IsExclusive (call_lock p al ∷ es) s (ne, a) i =
    acts-IsExclusive es _ a (enter-IsExclusive s p entry al (s.pc p) refl (λ h. ne) i)
acts-IsExclusive (call_try_lock p ∷ es) s a i =
    acts-IsExclusive es _ a
      (enter-IsExclusive s p try_entry (s.al p) (s.pc p) refl (λ h. absurd (ground (arith, h))) i)
acts-IsExclusive (run p ∷ es) s a i = acts-IsExclusive es _ a (step-IsExclusive s p (s.pc p) refl i)
acts-IsExclusive (call_unlock p ∷ es) s a i =
    acts-IsExclusive es _ a (unlock-IsExclusive s p (s.pc p) refl i)

-- Mutual exclusion. However the instructions of any number of processors are interleaved, two
-- processors that are inside the lock are the same one, and the byte is not 0 while one is, provided
-- that each call of `lock` finds something other than 0 in `al`. `try_lock` needs no such condition.
pub one_inside :
    (es : List Event) (p q : ℕ)
    → AllLoaded es
    → let s = acts new_spinlock es in s.pc p ≡ inside → s.pc q ≡ inside → (p ≡ q) × (s.locked ≢ 0)
unfolding new_spinlock
one_inside es p q a h k =
    let i = acts-IsExclusive es new_spinlock a (λ r. (
      (λ h. absurd (ground (arith, h))),
      λ u h. absurd (ground (arith, h)),
      λ h. absurd (ground (arith, h)),
    )) in
    ((i p).1 q (ap holds h) (ap holds k), (i p).0 (ap holds h))
