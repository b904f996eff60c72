-- ===== src/Util/LinkedList/Access.antt =====
-- `operator[]` of src/util/linked_list.cpp on the sequence that a list holds, for the callers that are
-- modelled over sequences. Nodes are not null.
use cpp_os.Base.{
  ℕ, ◌^◌, ◌<◌, ◌≤◌, ◌≡◌, refl, Bool, true, ◌&&◌, Option, none, some, List, ltb, ◌==◌, if◌then◌else◌,
  length, get_or, arith, inl, inr, Bool-cases, ==→eq, ==_refl,
}
use cpp_os.Util.LinkedList.{Nodes, LinkedList, null, get}
use cpp_os.Util.LinkedList.Chain.{Holds}
use cpp_os.Util.LinkedList.Index.{CursorAt}
use cpp_os.Util.LinkedList.Cursor.{get-Holds}

-- `current` and `current_i`; `none` is the null pointer.
abbrev pub Cursor : Type 0
Cursor = Option (ℕ × ℕ)

abbrev pub cursor_of : LinkedList → Cursor
cursor_of l = if l.current == null then none else some (l.current, l.current_i)

-- The cursor is unset, or its node stands at its index.
abbrev pub is_right : List ℕ → Cursor → Bool
is_right xs none = true
is_right xs (some (node, i)) = ltb i (length xs) && (get_or xs i 0 == node)

-- `operator[]` at an index below the length: the node and the cursor. `none` is a cursor whose node
-- stands elsewhere or is off the list: the walk then starts from a wrong place.
unfoldable pub read : List ℕ → Cursor → ℕ → Option (ℕ × Cursor)
read xs c i = if is_right xs c then some (get_or xs i 0, some (get_or xs i 0, i)) else none

-- The cursor after `remove_p` of a node.
unfoldable pub after_remove : Cursor → ℕ → Cursor
after_remove none node = none
after_remove (some (n, i)) node = if n == node then none else some (n, i)

CursorAt-is_right :
    (l : LinkedList) (xs : List ℕ) → is_right xs (cursor_of l) ≡ true → CursorAt l xs
CursorAt-is_right l xs h = elim (Bool-cases (l.current == null)) [
  | inl unset ↦ inl (==→eq l.current null unset)
  | inr is_set ↦
      let here : (ltb l.current_i (length xs) && (get_or xs l.current_i 0 == l.current)) ≡ true =
        rw is_set at h in
      inr (ground (arith, here), ground (arith, here))
]

-- What `read` returns is what the list's `operator[]` finds.
pub get-read :
    (m : Nodes) (l : LinkedList) (xs : List ℕ) (i : ℕ)
    → Holds m l xs
    → length xs ≤ 2 ^ 31
    → i < length xs
    → is_right xs (cursor_of l) ≡ true
    → read xs (cursor_of l) i ≡ some ((get m l i).0, some ((get m l i).0, i))
unfolding read
get-read m l xs i h short lt right =
    let (found, _, _) = get-Holds m l xs i h short (CursorAt-is_right l xs right) lt in
    rw (right, found) refl

pub read-is_right :
    (xs : List ℕ) (i : ℕ) → i < length xs → is_right xs (some (get_or xs i 0, i)) ≡ true
read-is_right xs i h = ground (arith, ==_refl (get_or xs i 0))
