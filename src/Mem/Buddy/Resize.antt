-- ===== src/Mem/Buddy/Resize.antt =====
-- src/mem/pmem.cpp: the calls that resize a block, and those that clear one. What `mem::alloc` returns is
-- an argument.
pub mod Shrunk
use cpp_os.Base.{
  ℕ, zero, suc, ◌+◌, ◌-◌, ◌*◌, ◌/◌, ◌%◌, ◌^◌, bit_xor, Bool, true, false, ◌&&◌, ◌||◌, not, Option,
  none, some, List, [], ◌∷◌, ◌++◌, ltb, leb, ◌==◌, if◌then◌else◌, add64,
}
use cpp_os.Util.Misc.{align_down, align_of}
use cpp_os.Util.Str.{memset}
use cpp_os.Util.ArrayList.{◌>>=◌}
use cpp_os.Mem.Buddy.{
  Pallocator, at, remove_zone, get_meta, get_order, get_order_size, get_space, alloc, oalloc, free,
}

abbrev pub is_listed : ℕ → List ℕ → Bool
is_listed z [] = false
is_listed z (w ∷ zs) = if w == z then true else is_listed z zs

-- `remove_p` of a block that may be on no list. An empty list stays empty, and a list of one block
-- loses it, whichever block that is. Else the links of the block are read: `none`, where it is not on
-- the list, since its memory then holds no links.
unfoldable pub unlink : ℕ → List ℕ → Option (List ℕ)
unlink z [] = some []
unlink z (w ∷ []) = some []
unlink z (w ∷ v ∷ zs) = if is_listed z (w ∷ v ∷ zs) then some (remove_zone z (w ∷ v ∷ zs)) else none

-- The loop of `realloc` that gives back the end of a block, for `n` orders.
unfoldable pub shrink_loop : ℕ → Pallocator → ℕ → ℕ → Pallocator
shrink_loop zero p m order = p
shrink_loop (suc n) p m order =
    let size = p.zone_n m / 2 in
    let zone2 = bit_xor m size in
    let meta2 = get_meta p zone2 in
    let given = record p {
      zone_n = at (at p.zone_n m size) zone2 size;
      lists = at p.lists (order - 1) (p.lists (order - 1) ++ (zone2 ∷ []));
      alloced = at p.alloced meta2 false;
      order = at p.order meta2 (order - 1);
    } in
    shrink_loop n given m (order - 1)

-- The loop that takes the buddies behind a block, for `n` orders, and the size that it ends with.
unfoldable pub grow_loop : ℕ → Pallocator → ℕ → ℕ → ℕ → Option (Pallocator × ℕ)
grow_loop zero p m len order = some (p, len)
grow_loop (suc n) p m len order = do
  left ← unlink (bit_xor m len) (p.lists order)
  grow_loop n (record p { lists = at p.lists order left }) m (len * 2 % 2 ^ 64) (order + 1)

-- What `realloc` returns, and the copy that it makes: to where, from where, how much.
pub record Resized : Type 0 where
  pub out : ℕ
  pub copied : Option (ℕ × ℕ × ℕ)
  pub after : Pallocator

abbrev pub in_place : Pallocator → ℕ → Resized
in_place p out = record { out = out; copied = none; after = p }

-- The branch of `realloc` for a lower order.
unfoldable pub shrink : Pallocator → ℕ → ℕ → ℕ → ℕ → Option Resized
shrink p meta m order n_order = do
  left ← unlink m (p.lists order)
  let q = shrink_loop (order - n_order) (record p { lists = at p.lists order left }) m order
  some (in_place (record q { order = at q.order meta n_order }) m)

-- The branch for a higher order, with room behind the block.
unfoldable pub grow : Pallocator → ℕ → ℕ → ℕ → ℕ → Option Resized
grow p meta m order n_order = do
  (q, size) ← grow_loop (n_order - order) p m (get_order_size p order) order
  some (in_place (record q { zone_n = at q.zone_n m size; order = at q.order meta n_order }) m)

-- The branch for a higher order without room; `other` is what `mem::alloc` returns.
unfoldable pub move : ℕ → Pallocator → ℕ → ℕ → ℕ → Resized
move other p m len n =
    let (out, q) = alloc p n in
    let dest = (if out == 0 then other else out) in
    if dest == 0
    then in_place q 0
    else record { out = dest; copied = some (dest, m, len); after = free q m }

-- `void *realloc (void *mem, usize n)`; the fuel is that of `get_space`.
unfoldable pub realloc : ℕ → ℕ → Pallocator → ℕ → ℕ → Option Resized
realloc fuel other p mem n =
    let meta = get_meta p mem in
    let order = p.order meta in
    let n_order = get_order p n in
    let len = get_order_size p order in
    let m = align_down mem len in
    if ltb mem p.start_addr || leb p.end_addr mem
    then some (in_place p 0)
    else if not (p.alloced meta)
    then some (in_place p 0)
    else if ltb p.max_order n_order
    then some (in_place p 0)
    else if n_order == order
    then some (in_place p m)
    else if ltb n_order order
    then shrink p meta m order n_order
    else (do
      space ← get_space fuel p (add64 m len)
      if leb n space && leb (get_order_size p n_order) (align_of m)
          then grow p meta m order n_order
          else some (move other p m len n))

-- `void *orealloc (void *mem, u8 order)`
unfoldable pub orealloc : ℕ → ℕ → Pallocator → ℕ → ℕ → Option Resized
orealloc fuel other p mem order =
    if ltb p.max_order order
    then some (in_place p 0)
    else realloc fuel other p mem (get_order_size p order)

-- `void *allocz (usize n)`, with the bytes of memory.
unfoldable pub allocz : (ℕ → ℕ) → Pallocator → ℕ → ℕ × Pallocator × (ℕ → ℕ)
allocz bytes p n =
    let (out, q) = alloc p n in (out, q, if out == 0 then bytes else memset bytes out n 0 0)

-- `void *oallocz (u8 order)`
unfoldable pub oallocz : (ℕ → ℕ) → Pallocator → ℕ → ℕ × Pallocator × (ℕ → ℕ)
oallocz bytes p order =
    let (out, q) = oalloc p order in
    (out, q, if out == 0 then bytes else memset bytes out (get_order_size p order) 0 0)
