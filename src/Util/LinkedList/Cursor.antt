-- ===== src/Util/LinkedList/Cursor.antt =====
-- `operator[]` with a cursor that is right, and what the cursor does after `pop_start` and in
-- `insert`.
use cpp_os.Base.{
  ℕ, suc, ◌^◌, ◌-◌, ◌*◌, ◌<◌, ◌≤◌, ◌≡◌, ◌≢◌, inl, inr, sym, true, false, List, [], ◌∷◌, arith, ◌==◌,
  leb, length, get_or, some, ltb, Bool-cases, if◌then◌else◌, add64, leb→gt,
}
use cpp_os.Util.LinkedList.{
  Nodes, LinkedList, null, find_node, get, pop_start, insert, walk_current, forward, set_next,
  set_prev,
}
use cpp_os.Util.LinkedList.Chain.{Holds}
use cpp_os.Util.LinkedList.Index.{CursorAt, find_node_lem, from_end}

-- With a cursor that is unset or right, in a list of at most 2 ^ 31 nodes, `operator[]` at an index below
-- the length returns the node of that index, leaves the sequence as it was, and sets the cursor there.
pub get-Holds :
    (m : Nodes) (l : LinkedList) (xs : List ℕ) (i : ℕ)
    → Holds m l xs
    → length xs ≤ 2 ^ 31
    → CursorAt l xs
    → i < length xs
    → let (out, l') = get m l i in (out ≡ get_or xs i 0) × Holds m l' xs × CursorAt l' xs
unfolding get
get-Holds m l [] i h short at lt = absurd (omega arith)
get-Holds m l (x ∷ r) i h short at lt = elim (Bool-cases (l.current == null)) [
  | inl unset ↦
      let l₀ = record l { current = l.start; current_i = 0 } in
      let found = find_node_lem m l₀ x r h i short (omega arith) (sym h.1) lt in
      let inside : leb l.len i ≡ false = ground (arith, h.0) in
      rw (inside, unset) (found, h, inr (lt, sym found))
  | inr is_set ↦
      let (ci, here) = right at is_set in
      let found = find_node_lem m l x r h i short ci here lt in
      let inside : leb l.len i ≡ false = ground (arith, h.0) in
      rw (inside, is_set) (found, h, inr (lt, sym found))
]
  where
    right :
        CursorAt l (x ∷ r)
        → (l.current == null) ≡ false
        → (l.current_i < suc (length r)) × (get_or (x ∷ r) l.current_i 0 ≡ l.current)
    right (inl e) ne = ground arith
    right (inr p) ne = p

-- Past the end `operator[]` returns null and changes nothing.
pub get_past_end :
    (m : Nodes) (l : LinkedList) (xs : List ℕ) (i : ℕ)
    → Holds m l xs
    → length xs ≤ i
    → get m l i ≡ (null, l)
unfolding get
get_past_end m l [] i h le = ground arith
get_past_end m l (x ∷ r) i h le = ground (arith, h.0)

-- At the cursor's own index there is no walk.
find_node_here :
    (m : Nodes) (l : LinkedList) → l.current_i < l.len → find_node m l l.current_i ≡ l.current
unfolding find_node walk_current forward
find_node_here m l h = ground arith

-- `pop_start` keeps `current_i`. Where the cursor is set and not on the first node, and its index is
-- below the length that is left, `operator[]` at that index then still returns the cursor's node,
-- although every node has moved down by one.
pub get-pop_start_stale :
    (m : Nodes) (l : LinkedList) (x : ℕ) (xs : List ℕ)
    → Holds m l (x ∷ xs)
    → l.current ≢ null
    → l.current ≢ x
    → l.current_i < length xs
    → (get m (pop_start m l).1 l.current_i).0 ≡ l.current
unfolding get pop_start
get-pop_start_stale m l x [] h ne front lt = absurd (omega arith)
get-pop_start_stale m l x (y ∷ r) h ne front lt =
    let full : (l.len == 0) ≡ false = ground (arith, h.0) in
    let more : (l.len - 1 == 0) ≡ false = ground (arith, h.0) in
    let kept : (l.current == l.start) ≡ false = ground (arith, h.1) in
    let inside : leb (l.len - 1) l.current_i ≡ false = ground (arith, h.0) in
    let is_set : (l.current == null) ≡ false = ground arith in
    rw (full, more, kept, inside, is_set)
      (find_node_here m (record l { len = l.len - 1; start = m.next l.start }) (leb→gt _ _ inside))

get_early :
    (m : Nodes) (l : LinkedList) (x : ℕ) (r : List ℕ)
    → Holds m l (x ∷ r)
    → l.current ≡ null
    → (i index : ℕ) → 0 < index
    → index < suc (length r)
    → suc (length r) < 2 * index
    → (get m (record l { len = add64 l.len 1; current_i = i }) index).0
      ≡ get_or (x ∷ r) (index - 1) 0
unfolding get find_node
get_early m l x r h unset i index lo hi half =
    ground (arith, h.0, h.5, from_end m l x r h (l.len - index) (index - 1) (omega (arith, h.0)))

-- `insert` counts the new node before it looks for its place. With the cursor unset and the index
-- behind the middle and below the length, the walk from the end then stops one node too early: the
-- call succeeds and the new node is put in front of the node at `index - 1`.
pub insert_early :
    (m : Nodes) (l : LinkedList) (xs : List ℕ) (index zone : ℕ)
    → Holds m l xs
    → l.current ≡ null
    → 0 < index
    → index < length xs
    → length xs < 2 * index
    → get_or xs (index - 1) 0 ≢ null
    → (m' : Nodes) × (l' : LinkedList) × (insert m l index zone ≡ some (true, m', l'))
      × (m'.next zone ≡ get_or xs (index - 1) 0)
unfolding insert
insert_early m l [] index zone h unset lo hi half ne = absurd (omega arith)
insert_early m l (x ∷ r) index zone h unset lo hi half ne =
    let l₁ = record l {
      len = add64 l.len 1;
      current_i = if leb index l.current_i then add64 l.current_i 1 else l.current_i;
    } in
    let temp = (get m l₁ index).0 in
    let early : temp ≡ get_or (x ∷ r) (index - 1) 0 =
      get_early m l x r h unset l₁.current_i index lo hi half in
    let m₁ = set_next m (m.prev temp) zone in
    let m₂ = set_prev m₁ zone (m₁.prev temp) in
    let m₃ = set_prev m₂ temp zone in
    let in_list : ltb l.len index ≡ false = ground (arith, h.0) in
    let not_last : (index == l.len) ≡ false = ground (arith, h.0) in
    let not_first : (index == 0) ≡ false = ground arith in
    let found : (temp == null) ≡ false = ground (arith, early) in
    (
      set_next m₃ zone temp,
      (get m l₁ index).1,
      rw (in_list, not_last, not_first, found),
      ground (arith, early),
    )
