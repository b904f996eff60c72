-- ===== src/Mem/Collect/Totals.antt =====
-- What `collect_phys_zones` takes and gives back.
use cpp_os.Base.{
  ℕ, zero, suc, ◌+◌, ◌/◌, ◌%◌, ◌^◌, ◌<◌, ◌≤◌, ◌≡◌, ◌≢◌, refl, ap, ◌∙◌, inl, inr, Bool, true, false,
  Option, none, some, List, [], ◌∷◌, ◌++◌, ltb, ◌==◌, sub64, length, length-append, arith,
  Bool-cases, ==→eq, ==→ne, ltb→ge, ne→==, subst,
}
use cpp_os.Mem.Zones.{page_size}
use cpp_os.Mem.Buddy.{Pallocator, get_order, get_order_size}
use cpp_os.Mem.Collect.{PhysAllocation, collect_loop, give_back, finish, collect_phys_zones}

abbrev pub total : List PhysAllocation → ℕ
total [] = 0
total (p ∷ ps) = p.len + total ps

append_one :
    (new : List PhysAllocation) (p : PhysAllocation) (list : List PhysAllocation)
    → new ++ (p ∷ list) ≡ (new ++ (p ∷ [])) ++ list
append_one [] p list = refl
append_one (q ∷ new) p list = ap (λ (l : List PhysAllocation). q ∷ l) (append_one new p list)

total-append_one :
    (new : List PhysAllocation) (p : PhysAllocation) → total (new ++ (p ∷ [])) ≡ total new + p.len
total-append_one [] p = omega arith
total-append_one (q ∷ new) p = omega (arith, total-append_one new p)

module _ {ℓ} {S : Type ℓ} (alloc : S → ℕ → ℕ × S) (free : S → ℕ → S) (left : S → ℕ)
    (takes : (s : S) (n : ℕ)
      → ((alloc s n).0 ≢ 0 → left (alloc s n).1 + n ≤ left s) × (left (alloc s n).1 ≤ left s)) where
  give_back-append :
      (new old : List PhysAllocation) (s : S)
      → (give_back alloc free (length old) (new ++ old) s).0 ≡ old
  unfolding give_back
  give_back-append [] [] s = refl
  give_back-append [] (p ∷ ps) s = ground arith
  give_back-append (q ∷ new) old s =
      let more : ltb (length old) (suc (length (new ++ old))) ≡ true =
        ground (arith, length-append new old) in
      rw more (give_back-append new old (free s q.addr))

  -- What the first loop ends with: some entries in front, whose lengths with what is left make up `n`.
  abbrev pub LoopDone : List PhysAllocation → ℕ → Option (ℕ × List PhysAllocation × S) → Type ℓ
  LoopDone list n o =
      (m : ℕ) × (new : List PhysAllocation) × (s' : S) × (o ≡ some (m, new ++ list, s'))
      × ((m + total new) % 2 ^ 64 ≡ n % 2 ^ 64)

  collect_loop-LoopDone :
      (fuel : ℕ) (s : S) (alloc_size n : ℕ) (list : List PhysAllocation)
      → left s + alloc_size < fuel
      → alloc_size < 2 ^ 64
      → LoopDone list n (collect_loop alloc free fuel s alloc_size n list)
  unfolding collect_loop
  collect_loop-LoopDone zero s a n list h w = absurd (omega arith)
  collect_loop-LoopDone (suc fuel) s a n list h w = elim (Bool-cases (n == 0)) [
    | inl done ↦ rw done (n, [], s, refl, omega arith)
    | inr more ↦ elim (Bool-cases (ltb a page_size)) [
      | inl small ↦ rw (more, small) (n, [], s, refl, omega arith)
      | inr big ↦ elim (Bool-cases ((alloc s a).0 == 0)) [
        | inl null ↦
            rw (more, big, null)
              (collect_loop-LoopDone fuel (alloc s a).1 (a / 2) n list
                (omega (arith, takes s a, ltb→ge a page_size big)) (omega arith))
        | inr got ↦
            let p : PhysAllocation = record { addr = (alloc s a).0; len = a } in
            let (m, new, s', e, t) =
              collect_loop-LoopDone fuel (alloc s a).1 a (sub64 n a) (p ∷ list)
                (omega (arith, (takes s a).0 (==→ne _ 0 got), ltb→ge a page_size big)) w in
            rw (more, big, got)
              (
                m,
                new ++ (p ∷ []),
                s',
                e ∙ ap (λ (l : List PhysAllocation). some (m, l, s')) (append_one new p list),
                omega (arith, t, total-append_one new p),
              )
      ]
    ]
  ]

  -- What is returned: on success some entries in front of the old ones, the newest first, whose
  -- lengths make up `n` as words; on failure the old list.
  abbrev pub Collected : List PhysAllocation → ℕ → Bool × List PhysAllocation × S → Type 0
  Collected list n (true, list', s') =
      (new : List PhysAllocation) × (list' ≡ new ++ list) × (total new % 2 ^ 64 ≡ n % 2 ^ 64)
  Collected list n (false, list', s') = list' ≡ list

  finish-Collected :
      (list new : List PhysAllocation) (m n : ℕ) (s : S)
      → (m + total new) % 2 ^ 64 ≡ n % 2 ^ 64
      → Collected list n (finish alloc free (length list) (m, new ++ list, s))
  unfolding finish
  finish-Collected list new m n s t = elim (Bool-cases (m == 0)) [
    | inl z ↦ rw z (new, refl, omega (arith, t, ==→eq m 0 z))
    | inr nz ↦ rw nz (give_back-append new list s)
  ]

  -- `collect_phys_zones` returns, and either takes blocks whose lengths make up the bytes asked for,
  -- as words, or leaves the array as it was. The allocators have `left` bytes: a call that returns
  -- memory takes at least its size off them, and one that returns null adds nothing; the rounds are
  -- bounded by those bytes and the size that the loop starts with.
  pub collect_phys_zones-Collected :
      (fuel : ℕ) (p : Pallocator) (s : S) (list : List PhysAllocation) (n : ℕ)
      → left s + get_order_size p (get_order p n) < fuel
      → get_order_size p (get_order p n) < 2 ^ 64
      → (r : Bool × List PhysAllocation × S) × (collect_phys_zones alloc free fuel p s list n
          ≡ some r)
        × Collected list n r
  unfolding collect_phys_zones
  collect_phys_zones-Collected fuel p s list n h w = elim (Bool-cases (n == 0)) [
    | inl z ↦ rw z ((true, list, s), refl, ([], refl, omega (arith, ==→eq n 0 z)))
    | inr nz ↦
        let (m, new, s', e, t) = collect_loop-LoopDone fuel s _ n list h w in
        rw (nz, e)
          (
            finish alloc free (length list) (m, new ++ list, s'),
            refl,
            finish-Collected list new m n s' t,
          )
  ]

  -- Some bytes are left over.
  abbrev pub IsShort : Option (ℕ × List PhysAllocation × S) → Type 0
  IsShort none = Unit {0}
  IsShort (some r) = r.0 ≢ 0

  -- With fewer bytes left than are to be taken, the first loop ends with bytes that are left over.
  collect_loop-IsShort :
      (fuel : ℕ) (s : S) (a n : ℕ) (list : List PhysAllocation)
      → left s < n
      → n < 2 ^ 64
      → IsShort (collect_loop alloc free fuel s a n list)
  unfolding collect_loop
  collect_loop-IsShort zero s a n list few w = tt
  collect_loop-IsShort (suc fuel) s a n list few w =
      let more : (n == 0) ≡ false = ground arith in
      elim (Bool-cases (ltb a page_size)) [
        | inl small ↦ rw (more, small) (λ z. omega arith)
        | inr big ↦ elim (Bool-cases ((alloc s a).0 == 0)) [
          | inl null ↦
              rw (more, big, null)
                (collect_loop-IsShort fuel (alloc s a).1 (a / 2) n list (omega (arith, takes s a))
                  w)
          | inr got ↦
              rw (more, big, got)
                (collect_loop-IsShort fuel (alloc s a).1 a (sub64 n a)
                  (record { addr = (alloc s a).0; len = a } ∷ list)
                  (omega (arith, (takes s a).0 (==→ne _ 0 got))) (omega arith))
        ]
      ]

  finish-IsShort :
      (list : List PhysAllocation) (m : ℕ) (new : List PhysAllocation) (s : S)
      → m ≢ 0
      → (s' : S) × (finish alloc free (length list) (m, new ++ list, s) ≡ (false, list, s'))
  unfolding finish
  finish-IsShort list m new s ne =
      let s' = (give_back alloc free (length list) (new ++ list) s).1 in
      rw (ne→== m 0 ne)
        (s', ap (λ (l : List PhysAllocation). (false, l, s')) (give_back-append new list s))

  -- Asking for a size that is not the size of an order fails as long as there is memory: the loop
  -- starts with the order's size that is not below `n`, and takes it off `n` without asking whether it
  -- is larger, so what is left wraps round to more than there is. If that first block is larger than
  -- `n` and the allocators have it, they are emptied and everything is given back, and the result is
  -- false. The allocators have less than 2 ^ 64 bytes; a call that returns memory takes at least its
  -- size off them, and one that returns null adds nothing.
  pub collect_phys_zones-overshoot :
      (fuel : ℕ) (p : Pallocator) (s : S) (list : List PhysAllocation) (n : ℕ)
      → let a = get_order_size p (get_order p n) in
        left s + a < suc fuel
        → a < 2 ^ 64
        → page_size ≤ a
        → 0 < n
        → n < a
        → left s < 2 ^ 64
        → (alloc s a).0 ≢ 0
        → (s' : S) × (collect_phys_zones alloc free (suc fuel) p s list n ≡ some (false, list, s'))
  unfolding collect_phys_zones collect_loop
  collect_phys_zones-overshoot fuel p s list n h w big some_n over few got =
      let a = get_order_size p (get_order p n) in
      let (t, u) = takes s a in
      let q : PhysAllocation = record { addr = (alloc s a).0; len = a } in
      let (m, new, s', e, sum) =
        collect_loop-LoopDone fuel (alloc s a).1 a (sub64 n a) (q ∷ list) (omega (arith, t got))
          w in
      let short = subst IsShort e (
        collect_loop-IsShort fuel (alloc s a).1 a (sub64 n a) (q ∷ list) (omega (arith, t got))
          (omega arith)) in
      let ended : collect_loop alloc free fuel (alloc s a).1 a (sub64 n a) (q ∷ list)
          ≡ some (m, (new ++ (q ∷ [])) ++ list, s') =
        e ∙ ap (λ (l : List PhysAllocation). some (m, l, s')) (append_one new q list) in
      let (s'', f) = finish-IsShort list m (new ++ (q ∷ [])) s' short in
      let nonzero : (n == 0) ≡ false = ground arith in
      let large : ltb a page_size ≡ false = ground arith in
      rw (nonzero, large, ne→== _ 0 got, ended) (s'', ap some f)
