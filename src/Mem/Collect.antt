-- ===== src/Mem/Collect.antt =====
-- src/mem/vmem.cpp: `collect_phys_zones`, which takes physical blocks from the allocators. The
-- allocators' state and their two calls are parameters, as src/mem/mem.cpp gives them.
pub mod Totals
use cpp_os.Base.{
  ℕ, zero, suc, ◌/◌, Bool, true, false, Option, none, some, List, [], ◌∷◌, ltb, ◌==◌, if◌then◌else◌,
  sub64, length,
}
use mathlib.Core.Option
use cpp_os.Mem.Zones.{page_size}
use cpp_os.Mem.Buddy.{Pallocator, get_order, get_order_size}

-- `struct phys_allocation`
pub record PhysAllocation : Type 0 where
  pub addr : ℕ
  pub len : ℕ

module _ {ℓ} {S : Type ℓ} (alloc : S → ℕ → ℕ × S) (free : S → ℕ → S) where
  -- The first loop, on fuel: `n` bytes are left. The array is written with its last entry first. The
  -- result is what is left when the loop ends.
  unfoldable pub collect_loop :
      ℕ → S → ℕ → ℕ → List PhysAllocation → Option (ℕ × List PhysAllocation × S)
  collect_loop zero s alloc_size n list = none
  collect_loop (suc fuel) s alloc_size n list =
      let (mem, s') = alloc s alloc_size in
      let smaller = collect_loop fuel s' (alloc_size / 2) n list in
      let next =
        collect_loop fuel s' alloc_size (sub64 n alloc_size)
          (record { addr = mem; len = alloc_size } ∷ list) in
      if n == 0
      then some (n, list, s)
      else if ltb alloc_size page_size
      then some (n, list, s)
      else if mem == 0
      then smaller
      else next

  -- The second loop: the entries behind the first `save_len` are popped and freed.
  unfoldable pub give_back : ℕ → List PhysAllocation → S → List PhysAllocation × S
  give_back save_len [] s = ([], s)
  give_back save_len (p ∷ ps) s =
      if ltb save_len (length (p ∷ ps)) then give_back save_len ps (free s p.addr) else (p ∷ ps, s)

  unfoldable pub finish : ℕ → ℕ × List PhysAllocation × S → Bool × List PhysAllocation × S
  finish save_len (n, list, s) =
      let (list', s') = give_back save_len list s in
      if n == 0 then (true, list, s) else (false, list', s')

  -- `bool collect_phys_zones (util::array_list<phys_allocation> &list, usize n)`, where `p` is the
  -- first allocator, whose orders the sizes are.
  unfoldable pub collect_phys_zones :
      ℕ → Pallocator → S → List PhysAllocation → ℕ → Option (Bool × List PhysAllocation × S)
  collect_phys_zones fuel p s list n =
      if n == 0
      then some (true, list, s)
      else Option.map (finish (length list))
          (collect_loop fuel s (get_order_size p (get_order p n)) n list)
