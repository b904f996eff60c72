-- ===== src/Util/LinkedList.antt =====
-- src/util/linked_list.cpp and include/util/linked_list.hpp: the intrusive doubly linked list.
-- The nodes' fields are two functions on addresses, which every list shares. A read or a write
-- through the null pointer is a fault, the `none` of a result.
pub mod Chain
pub mod Ends
pub mod Unlink
pub mod Index
pub mod Cursor
pub mod Access
use cpp_os.Base.{
  ℕ, zero, suc, ◌+◌, ◌-◌, ◌%◌, ◌^◌, Bool, true, false, ◌&&◌, Option, none, some, ltb, leb, ◌==◌,
  if◌then◌else◌, add64, sub64,
}
use cpp_os.Base.Int.{ℤ, pos, negsuc, sub_ℕ, ltb_ℤ}
use cpp_os.Util.Math.{abs}

-- `prev` and `next` of every `list_node`.
pub record Nodes : Type 0 where
  pub next : ℕ → ℕ
  pub prev : ℕ → ℕ

pub record LinkedList : Type 0 where
  pub len : ℕ
  pub start : ℕ
  pub end : ℕ
  pub current : ℕ
  pub current_i : ℕ

abbrev pub null : ℕ
null = 0

abbrev pub update : (ℕ → ℕ) → ℕ → ℕ → ℕ → ℕ
update f a v b = if b == a then v else f b

abbrev pub set_next : Nodes → ℕ → ℕ → Nodes
set_next m a v = record m { next = update m.next a v }

abbrev pub set_prev : Nodes → ℕ → ℕ → Nodes
set_prev m a v = record m { prev = update m.prev a v }

-- `linked_list ()`
unfoldable pub new_list : LinkedList
new_list = record { len = 0; start = null; end = null; current = null; current_i = 0 }

-- `bool prepend (list_node *zone)`; it returns true on every path.
unfoldable pub prepend : Nodes → LinkedList → ℕ → Nodes × LinkedList
prepend m l zone =
    let l' = record l { len = add64 l.len 1; current_i = add64 l.current_i 1 } in
    if l'.len == 1
    then (m, record l' { start = zone; end = zone })
    else (set_next (set_prev m l.start zone) zone l.start, record l' { start = zone })

-- `bool append (list_node *zone)`; it returns true on every path.
unfoldable pub append : Nodes → LinkedList → ℕ → Nodes × LinkedList
append m l zone =
    let l' = record l { len = add64 l.len 1 } in
    if l'.len == 1
    then (m, record l' { start = zone; end = zone })
    else (set_prev (set_next m l.end zone) zone l.end, record l' { end = zone })

-- `list_node *pop_start ()`: the node, or null.
unfoldable pub pop_start : Nodes → LinkedList → ℕ × LinkedList
pop_start m l =
    if l.len == 0
    then (null, l)
    else let current = (if l.current == l.start then null else l.current) in
      let l' = record l { len = l.len - 1; current = current } in
      if l'.len == 0 then (l.start, l') else (l.start, record l' { start = m.next l.start })

-- `list_node *pop ()`
unfoldable pub pop : Nodes → LinkedList → ℕ × LinkedList
pop m l =
    if l.len == 0
    then (null, l)
    else let current = (if l.current == l.end then null else l.current) in
      let l' = record l { len = l.len - 1; current = current } in
      if l'.len == 0 then (l.end, l') else (l.end, record l' { end = m.prev l.end })

-- `void remove_p (list_node *zone)`
unfoldable pub remove_p : Nodes → LinkedList → ℕ → Nodes × LinkedList
remove_p m l zone =
    if l.len == 0
    then (m, l)
    else let current = (if l.current == zone then null else l.current) in
      let l' = record l { len = l.len - 1; current = current } in
      if l'.len == 0
      then (m, l')
      else if zone == l.start
      then (m, record l' { start = m.next zone })
      else if zone == l.end
      then (m, record l' { end = m.prev zone })
      else let m' = set_next m (m.prev zone) (m.next zone) in
        (set_prev m' (m'.next zone) (m'.prev zone), l')

-- The low 32 bits of an `isize`, and an `i32` as an integer.
abbrev pub word32 : ℤ → ℕ
word32 (pos n) = n % 2 ^ 32
word32 (negsuc n) = 2 ^ 32 - 1 - n % 2 ^ 32

abbrev pub signed32 : ℕ → ℤ
signed32 w = if ltb w (2 ^ 31) then pos w else negsuc (2 ^ 32 - 1 - w)

-- The rounds of the walk: `n` steps along `next` or along `prev`.
unfoldable pub forward : Nodes → ℕ → ℕ → ℕ
forward m zero zone = zone
forward m (suc n) zone = forward m n (m.next zone)

unfoldable pub backward : Nodes → ℕ → ℕ → ℕ
backward m zero zone = zone
backward m (suc n) zone = backward m n (m.prev zone)

-- The walk from the cursor. The direction is the sign of the distance as an `i32`: 0 for a distance
-- that 2 ^ 32 divides, where the walk goes back to the null pointer, at which the assertion fails.
unfoldable pub walk_current : Nodes → ℕ → ℕ → ℕ → ℕ
walk_current m zone i index =
    let diff = word32 (sub_ℕ index i) in
    if i == index
    then zone
    else if diff == 0
    then null
    else if ltb diff (2 ^ 31)
    then forward m (sub64 index i) zone
    else backward m (sub64 i index) zone

-- The node that `operator[]` finds for an index below `len`, from a cursor that is set.
unfoldable pub find_node : Nodes → LinkedList → ℕ → ℕ
find_node m l index =
    let diff_middle = sub_ℕ index l.current_i in
    if ltb_ℤ diff_middle (pos 0) && ltb_ℤ (pos index) (signed32 (abs (word32 diff_middle)))
    then forward m index l.start
    else if ltb_ℤ (sub_ℕ l.len (index + 1)) diff_middle
    then backward m (l.len - 1 - index) l.end
    else walk_current m l.current l.current_i index

-- `list_node *operator[] (usize index)`, for lengths below `2 ^ 63`.
unfoldable pub get : Nodes → LinkedList → ℕ → ℕ × LinkedList
get m l index =
    if leb l.len index
    then (null, l)
    else let l' =
        (if l.current == null then record l { current = l.start; current_i = 0 } else l) in
      let zone = find_node m l' index in (zone, record l' { current = zone; current_i = index })

-- `bool insert (usize index, list_node *zone)`
unfoldable pub insert : Nodes → LinkedList → ℕ → ℕ → Option (Bool × Nodes × LinkedList)
insert m l index zone =
    if ltb l.len index
    then some (false, m, l)
    else if index == l.len
    then (let (m', l') = append m l zone in some (true, m', l'))
    else if index == 0
    then (let (m', l') = prepend m l zone in some (true, m', l'))
    else let i = (if leb index l.current_i then add64 l.current_i 1 else l.current_i) in
      let (temp, l') = get m (record l { len = add64 l.len 1; current_i = i }) index in
      let m₁ = set_next m (m.prev temp) zone in
      let m₂ = set_prev m₁ zone (m₁.prev temp) in
      let m₃ = set_prev m₂ temp zone in
      if temp == null then none else some (true, set_next m₃ zone temp, l')

-- `list_node *remove (usize index)`
unfoldable pub remove : Nodes → LinkedList → ℕ → Option (ℕ × Nodes × LinkedList)
remove m l index =
    if ltb l.len index
    then some (null, m, l)
    else if index == sub64 l.len 1
    then (let (out, l') = pop m l in some (out, m, l'))
    else if index == 0
    then (let (out, l') = pop_start m l in some (out, m, l'))
    else let (temp, l') = get m (record l { len = l.len - 1 }) index in
      let l'' = (if leb index l'.current_i then record l' { current = m.next temp } else l') in
      let m₁ = set_next m (m.prev temp) (m.next temp) in
      if temp == null then none else some (temp, set_prev m₁ (m₁.next temp) (m₁.prev temp), l'')
