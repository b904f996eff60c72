-- ===== src/Util/Tests.antt =====
-- The theorems on src/util at small inputs.
use cpp_os.Base.{ℕ, ◌≡◌, refl, inl, List, false, [], ◌∷◌, true, ◌==◌, if◌then◌else◌, arith}
use cpp_os.Util.LinkedList2.{LinkedList2}
use cpp_os.Util.LinkedList2.Deque.{
  Stands, Op, push_front, push_back, take_front, take_back, added, item, run, run-Stands,
}
use cpp_os.Util.LinkedList.{Nodes, LinkedList, remove_p, get}
use cpp_os.Util.LinkedList.Chain.{Holds}
use cpp_os.Util.LinkedList.Index.{CursorAt}
use cpp_os.Util.LinkedList.Unlink.{remove_p-Holds}
use cpp_os.Util.LinkedList.Cursor.{get-Holds}
use cpp_os.Util.ArrayList.{ArrayList, push, remove}
use cpp_os.Util.ArrayList.Push.{IsValid, Pushed, push-Pushed}
use cpp_os.Util.ArrayList.Remove.{Removed, remove-Removed}
use cpp_os.Util.Str.{itoa}
use cpp_os.Util.Str.Decimal.{value, value-itoa}

-- Three nodes at 16, 32 and 48.
abbrev nodes : Nodes
nodes = record {
  next = λ a. if a == 16 then 32 else if a == 32 then 48 else 0;
  prev = λ a. if a == 48 then 32 else if a == 32 then 16 else 0;
}

abbrev three : LinkedList
three = record { len = 3; start = 16; end = 48; current = 0; current_i = 0 }

three-Holds : Holds nodes three (16 ∷ 32 ∷ 48 ∷ [])
three-Holds =
    (refl, refl, refl, (refl, refl, (refl, refl, tt)), (refl, (refl, (refl, tt))), omega arith)

remove_p-Holds_example : let (m', l') = remove_p nodes three 32 in Holds m' l' (16 ∷ 48 ∷ [])
remove_p-Holds_example = remove_p-Holds nodes three (16 ∷ []) 32 (48 ∷ []) three-Holds

get-Holds_example :
    let (out, l') = get nodes three 2 in
    (out ≡ 48) × Holds nodes l' (16 ∷ 32 ∷ 48 ∷ []) × CursorAt l' (16 ∷ 32 ∷ 48 ∷ [])
get-Holds_example =
    get-Holds nodes three (16 ∷ 32 ∷ 48 ∷ []) 2 three-Holds (omega arith) (inl refl) (omega arith)

-- Two entries in a buffer of four.
abbrev pair_array : ArrayList
pair_array = record { len = 2; capacity = 4; list = 5 ∷ 6 ∷ 0 ∷ 0 ∷ [] }

pair_array-IsValid : IsValid pair_array
pair_array-IsValid = (omega arith, refl)

push-Pushed_example : Pushed pair_array 7 (push true pair_array 7)
push-Pushed_example = push-Pushed pair_array 7 pair_array-IsValid (omega arith)

remove-Removed_example : Removed pair_array 0 (remove pair_array 0)
remove-Removed_example = remove-Removed pair_array 0 pair_array-IsValid (omega arith)

value-itoa_example : value 0 (itoa 40960) ≡ 40960
value-itoa_example = value-itoa 40960 (omega arith)

-- A list of two items, 70 at node 5 and 71 at node 6.
abbrev two_items : LinkedList2
two_items = record {
  nodes = record { next = λ a. if a == 5 then 6 else 0; prev = λ a. if a == 6 then 5 else 0 };
  item = λ a. if a == 5 then 70 else 71;
  list = record { len = 2; start = 5; end = 6; current = 0; current_i = 0 };
}

abbrev two_entries : List (ℕ × ℕ)
two_entries = (5, 70) ∷ (6, 71) ∷ []

two_items-Stands : Stands two_items two_entries
two_items-Stands = (
  (refl, refl, refl, (refl, refl, tt), (refl, (refl, tt)), omega arith),
  (refl, omega arith, (refl, omega arith, tt)),
)

abbrev some_ops : List Op
some_ops = push_front 9 72 ∷ take_back ∷ push_back 0 73 ∷ take_front ∷ []

run-Stands_example :
    ((run two_items some_ops).0 ≡ added true ∷ item 71 ∷ added false ∷ item 72 ∷ [])
    × Stands (run two_items some_ops).1 ((5, 70) ∷ [])
run-Stands_example =
    run-Stands two_items two_entries some_ops two_items-Stands
      (((λ _. refl), omega arith), (tt, (((λ ne. absurd (ne refl)), omega arith), (tt, tt))))
