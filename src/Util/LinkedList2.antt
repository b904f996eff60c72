-- ===== src/Util/LinkedList2.antt =====
-- include/util/linked_list2.hpp: a list of pointers to items, over the intrusive list. A node comes
-- from the heap: `node` is the result of `new list_node2 ()`, null where there is no memory.
pub mod Deque
use cpp_os.Base.{ℕ, zero, suc, Bool, true, false, Option, none, some, ◌==◌, if◌then◌else◌}
use cpp_os.Util.LinkedList.{
  Nodes, LinkedList, null, update, new_list, append, prepend, pop, pop_start, insert, remove, get,
}

-- The nodes' fields, `item` of `list_node2`, and the list.
pub record LinkedList2 : Type 0 where
  pub nodes : Nodes
  pub item : ℕ → ℕ
  pub list : LinkedList

-- `linked_list2 ()`
unfoldable pub new_list2 : Nodes → (ℕ → ℕ) → LinkedList2
new_list2 m it = record { nodes = m; item = it; list = new_list }

-- `usize get_len ()`
unfoldable pub get_len : LinkedList2 → ℕ
get_len l = l.list.len

-- `bool prepend (T *item)` and `bool append (T *item)`
unfoldable pub prepend2 : LinkedList2 → ℕ → ℕ → Bool × LinkedList2
prepend2 l node item =
    let (m, l') = prepend l.nodes l.list node in
    if node == null
    then (false, l)
    else (true, record { nodes = m; item = update l.item node item; list = l' })

unfoldable pub append2 : LinkedList2 → ℕ → ℕ → Bool × LinkedList2
append2 l node item =
    let (m, l') = append l.nodes l.list node in
    if node == null
    then (false, l)
    else (true, record { nodes = m; item = update l.item node item; list = l' })

-- `bool insert (usize index, T *item)`; `none` is the fault of the list's own insert.
unfoldable pub insert2 : LinkedList2 → ℕ → ℕ → ℕ → Option (Bool × LinkedList2)
insert2 l index node item =
    if node == null then some (false, l) else elim (insert l.nodes l.list index node) [
      | none ↦ none
      | some (ok, m, l') ↦
          some (ok, record { nodes = m; item = update l.item node item; list = l' })
    ]

-- What `pop`, `pop_start` and `remove` return of the node they took: its item, or null.
unfoldable pub taken : LinkedList2 → ℕ → LinkedList → ℕ × LinkedList2
taken l node l' =
    if node == null then (null, record l { list = l' }) else (l.item node, record l { list = l' })

-- `pop_start ()` and `pop ()`. The node goes back to the heap.
unfoldable pub pop_start2 : LinkedList2 → ℕ × LinkedList2
pop_start2 l = let (node, l') = pop_start l.nodes l.list in taken l node l'

unfoldable pub pop2 : LinkedList2 → ℕ × LinkedList2
pop2 l = let (node, l') = pop l.nodes l.list in taken l node l'

-- `remove (usize index)`
unfoldable pub remove2 : LinkedList2 → ℕ → Option (ℕ × LinkedList2)
remove2 l index = elim (remove l.nodes l.list index) [
  | none ↦ none
  | some (node, m, l') ↦ some (taken (record l { nodes = m }) node l')
]

-- `T *operator[] (usize index)`
unfoldable pub get2 : LinkedList2 → ℕ → ℕ × LinkedList2
get2 l index = let (node, l') = get l.nodes l.list index in taken l node l'

-- `~linked_list2 ()`, on fuel; a round for each node is enough.
unfoldable pub destroy : ℕ → LinkedList2 → Option LinkedList2
destroy zero l = none
destroy (suc fuel) l = let rest = destroy fuel (pop2 l).1 in if get_len l == 0 then some l else rest
