-- ===== src/Util/ArrayList/Delete.antt =====
-- The destructor of the growing array.
use cpp_os.Base.{
  ℕ, zero, suc, ◌+◌, ◌*◌, ◌%◌, ◌^◌, ◌≤◌, ◌≡◌, refl, Bool, true, Option, some, List, [], ◌∷◌,
  if◌then◌else◌, length, take, get_elem?, arith,
}
use cpp_os.Util.ArrayList.{ArrayList, ◌>>=◌}
use cpp_os.Util.ArrayList.Push.{IsValid, contents}

-- `for (; i < len; i ++) delete list[i];` with `n` rounds left: what is deleted, in order.
unfoldable pub delete_loop : ℕ → ℕ → List ℕ → Option (List ℕ)
delete_loop zero i buf = some []
delete_loop (suc n) i buf = do
  x ← get_elem? buf i
  gone ← delete_loop n (i + 1) buf
  some (x ∷ gone)

-- `~array_list ()`: what is deleted, and the size that `kfree` gets with the buffer.
unfoldable pub delete_array_list : Bool → ArrayList → Option (List ℕ × ℕ)
delete_array_list free_members a = do
  gone ← if free_members then delete_loop a.len 0 a.list else some []
  some (gone, a.capacity * 8 % 2 ^ 64)

delete_loop_behind :
    (n i : ℕ) (x : ℕ) (buf : List ℕ) → delete_loop n (suc i) (x ∷ buf) ≡ delete_loop n i buf
unfolding delete_loop
delete_loop_behind zero i x buf = refl
delete_loop_behind (suc n) i x buf =
    let shift : suc i + 1 ≡ suc (i + 1) = omega arith in
    rw (shift, delete_loop_behind n (i + 1) x buf) refl

delete_loop-take : (n : ℕ) (buf : List ℕ) → n ≤ length buf → delete_loop n 0 buf ≡ some (take n buf)
unfolding delete_loop
delete_loop-take zero buf h = refl
delete_loop-take (suc n) [] h = absurd (omega arith)
delete_loop-take (suc n) (x ∷ buf) h =
    let one : 0 + 1 ≡ 1 = refl in
    rw (one, delete_loop_behind n 0 x buf, delete_loop-take n buf (omega arith)) refl

-- The destructor of an array that owns its members deletes each of them once, in order, and no other.
pub delete_array_list-contents :
    (a : ArrayList)
    → IsValid a
    → delete_array_list true a ≡ some (contents a, a.capacity * 8 % 2 ^ 64)
unfolding delete_array_list
delete_array_list-contents a h =
    rw (delete_array_list, delete_loop-take a.len a.list (omega (arith, h))) refl
