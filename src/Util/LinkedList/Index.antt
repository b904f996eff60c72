-- ===== src/Util/LinkedList/Index.antt =====
-- `operator[]` and its cursor.
use cpp_os.Base.{
  ℕ, zero, suc, ◌+◌, ◌-◌, ◌<◌, ◌≡◌, ◌⊎◌, inl, inr, refl, ◌∙◌, ap, List, [], ◌∷◌, arith, leb, length,
  get_or, ◌≤◌, ◌%◌, ◌^◌, ◌==◌, ltb, sym, ==→eq, sub64, true, false, Bool-cases, leb→le, leb→gt,
}
use cpp_os.Util.LinkedList.{Nodes, LinkedList, null, forward, backward, walk_current, find_node}
use cpp_os.Util.LinkedList.Chain.{last, LinkFrom, Holds}

-- The cursor is unset, or stands at its index.
abbrev pub CursorAt : LinkedList → List ℕ → Type 0
CursorAt l xs =
    (l.current ≡ null) ⊎ ((l.current_i < length xs) × (get_or xs l.current_i 0 ≡ l.current))

module _ (m : Nodes) where
  next-get_or :
      (x : ℕ) (r : List ℕ) (i : ℕ)
      → LinkFrom m x r
      → i < length r
      → m.next (get_or (x ∷ r) i 0) ≡ get_or r i 0
  next-get_or x [] i c h = absurd (omega arith)
  next-get_or x (y ∷ r) zero c h = c.0
  next-get_or x (y ∷ r) (suc i) c h = next-get_or y r i c.2 (omega arith)

  pub prev-get_or :
      (x : ℕ) (r : List ℕ) (i : ℕ)
      → LinkFrom m x r
      → i < length r
      → m.prev (get_or r i 0) ≡ get_or (x ∷ r) i 0
  prev-get_or x [] i c h = absurd (omega arith)
  prev-get_or x (y ∷ r) zero c h = c.1
  prev-get_or x (y ∷ r) (suc i) c h = prev-get_or y r i c.2 (omega arith)

  module _ (x : ℕ) (r : List ℕ) (c : LinkFrom m x r) where
    forward_lem :
        (n i j : ℕ)
        → i + n ≡ j
        → j < suc (length r)
        → forward m n (get_or (x ∷ r) i 0) ≡ get_or (x ∷ r) j 0
    unfolding forward
    forward_lem zero i j e h = let e' : i ≡ j = omega arith in ap (λ (t : ℕ). get_or (x ∷ r) t 0) e'
    forward_lem (suc n) i j e h =
        ap (forward m n) (next-get_or x r i c (omega arith))
        ∙ forward_lem n (suc i) j (omega arith) h

    backward_lem :
        (n i j : ℕ)
        → j + n ≡ i
        → i < suc (length r)
        → backward m n (get_or (x ∷ r) i 0) ≡ get_or (x ∷ r) j 0
    unfolding backward
    backward_lem zero i j e h =
        let e' : i ≡ j = omega arith in ap (λ (t : ℕ). get_or (x ∷ r) t 0) e'
    backward_lem (suc n) zero j e h = absurd (omega arith)
    backward_lem (suc n) (suc i) j e h =
        ap (backward m n) (prev-get_or x r i c (omega arith))
        ∙ backward_lem n i j (omega arith) (omega arith)

  last-get_or : (x : ℕ) (r : List ℕ) → last x r ≡ get_or (x ∷ r) (length r) 0
  last-get_or x [] = refl
  last-get_or x (y ∷ r) = last-get_or y r

  module _ (l : LinkedList) (x : ℕ) (r : List ℕ) (h : Holds m l (x ∷ r)) where
    pub from_start : (i : ℕ) → i < suc (length r) → forward m i l.start ≡ get_or (x ∷ r) i 0
    from_start i lt = ap (forward m i) h.1 ∙ forward_lem x r h.3 i 0 i (omega arith) lt

    pub from_end : (k i : ℕ) → i + k ≡ length r → backward m k l.end ≡ get_or (x ∷ r) i 0
    from_end k i e =
        ap (backward m k) (h.2 ∙ last-get_or x r)
        ∙ backward_lem x r h.3 k (length r) i e (omega arith)

    from_cursor :
        (i : ℕ)
        → suc (length r) ≤ 2 ^ 31
        → l.current_i < suc (length r)
        → get_or (x ∷ r) l.current_i 0 ≡ l.current
        → i < suc (length r)
        → walk_current m l.current l.current_i i ≡ get_or (x ∷ r) i 0
    unfolding walk_current
    from_cursor i short ci at lt = elim (Bool-cases (l.current_i == i)) [
      | inl here ↦ rw here (sym at ∙ ap (λ (k : ℕ). get_or (x ∷ r) k 0) (==→eq l.current_i i here))
      | inr away ↦ elim (Bool-cases (leb l.current_i i)) [
        | inl p ↦
            let up : l.current_i < i = ground (arith, away, leb→le _ _ p) in
            let diff : (i - l.current_i) % 2 ^ 32 ≡ i - l.current_i = omega arith in
            let some_steps : (i - l.current_i == 0) ≡ false = ground arith in
            let plus : ltb (i - l.current_i) (2 ^ 31) ≡ true = ground arith in
            let steps : sub64 i l.current_i ≡ i - l.current_i = omega arith in
            rw (away, p, diff, some_steps, plus, steps, ← at)
              (forward_lem x r h.3 (i - l.current_i) l.current_i i (omega (arith, up)) lt)
        | inr p ↦
            let down = leb→gt l.current_i i p in
            let diff : 2 ^ 32 - 1 - (l.current_i - i - 1) % 2 ^ 32 ≡ 2 ^ 32 - (l.current_i - i) =
              omega arith in
            let some_steps : (2 ^ 32 - (l.current_i - i) == 0) ≡ false = ground arith in
            let minus : ltb (2 ^ 32 - (l.current_i - i)) (2 ^ 31) ≡ false = ground arith in
            let steps : sub64 l.current_i i ≡ l.current_i - i = omega arith in
            rw (away, p, diff, some_steps, minus, steps, ← at)
              (backward_lem x r h.3 (l.current_i - i) l.current_i i (omega (arith, down)) ci)
      ]
    ]

    -- Whichever end the walk starts from, it stops at the node of the index.
    pub find_node_lem :
        (i : ℕ)
        → suc (length r) ≤ 2 ^ 31
        → l.current_i < suc (length r)
        → get_or (x ∷ r) l.current_i 0 ≡ l.current
        → i < suc (length r)
        → find_node m l i ≡ get_or (x ∷ r) i 0
    unfolding find_node
    find_node_lem i short ci at lt = ground (
      arith,
      from_start i lt,
      from_end (l.len - 1 - i) i (omega (arith, h.0)),
      from_cursor i short ci at lt,
    )
