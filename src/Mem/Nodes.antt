-- ===== src/Mem/Nodes.antt =====
-- src/mem/mem.cpp: the calls that go to the allocator of a memory node. The allocators' operations
-- are a record that src/mem/pmem.cpp fills; the state of each is a value of `P`.
pub mod Calls
pub mod Setup
pub mod Table
use cpp_os.Base.{ℕ, ◌+◌, Bool, ◌&&◌, List, [], ◌∷◌, ltb, leb, ◌==◌, if◌then◌else◌, add64}

-- The public operations of `class pallocator` that src/mem/mem.cpp calls.
pub record Operations {ℓ} (P : Type ℓ) : Type ℓ where
  pub alloc : P → ℕ → ℕ × P
  pub allocz : P → ℕ → ℕ × P
  pub oalloc : P → ℕ → ℕ × P
  pub oallocz : P → ℕ → ℕ × P
  pub realloc : P → ℕ → ℕ → ℕ × P
  pub orealloc : P → ℕ → ℕ → ℕ × P
  pub free : P → ℕ → P
  pub get_start_addr : P → ℕ
  pub get_end_addr : P → ℕ
  pub get_free_space : P → ℕ

module _ {ℓ} {P : Type ℓ} where
  -- The loop of `alloc`, `allocz`, `oalloc` and `oallocz`: the first allocator that returns memory.
  unfoldable pub first_that : (P → ℕ → ℕ × P) → List P → ℕ → ℕ × List P
  first_that f [] n = (0, [])
  first_that f (p ∷ ps) n =
      let (out, p') = f p n in
      let (out', ps') = first_that f ps n in if out == 0 then (out', p' ∷ ps') else (out, p' ∷ ps)

  -- `m >= allocators[i].get_start_addr () && m < allocators[i].get_end_addr ()`
  abbrev pub owns : Operations P → P → ℕ → Bool
  owns o p m = leb (o.get_start_addr p) m && ltb m (o.get_end_addr p)

  -- The loop of `realloc` and `orealloc`: the allocator whose range has the address.
  unfoldable pub owner_that : Operations P → (P → ℕ → ℕ → ℕ × P) → List P → ℕ → ℕ → ℕ × List P
  owner_that o f [] m n = (0, [])
  owner_that o f (p ∷ ps) m n =
      let (out, p') = f p m n in
      let (out', ps') = owner_that o f ps m n in
      if owns o p m then (out, p' ∷ ps) else (out', p ∷ ps')

module _ {ℓ} {P : Type ℓ} (o : Operations P) where
  -- `void *mem::alloc (usize n)`, `allocz`, `oalloc` and `oallocz`
  unfoldable pub node_alloc : List P → ℕ → ℕ × List P
  node_alloc ps n = first_that o.alloc ps n

  unfoldable pub node_allocz : List P → ℕ → ℕ × List P
  node_allocz ps n = first_that o.allocz ps n

  unfoldable pub node_oalloc : List P → ℕ → ℕ × List P
  node_oalloc ps n = first_that o.oalloc ps n

  unfoldable pub node_oallocz : List P → ℕ → ℕ × List P
  node_oallocz ps n = first_that o.oallocz ps n

  -- `void *mem::realloc (void *mem, usize n)` and `orealloc`
  unfoldable pub node_realloc : List P → ℕ → ℕ → ℕ × List P
  node_realloc ps m n = owner_that o o.realloc ps m n

  unfoldable pub node_orealloc : List P → ℕ → ℕ → ℕ × List P
  node_orealloc ps m n = owner_that o o.orealloc ps m n

  -- `void mem::free (void *mem)`
  unfoldable pub node_free : List P → ℕ → List P
  node_free [] m = []
  node_free (p ∷ ps) m =
      let rest = node_free ps m in if owns o p m then o.free p m ∷ ps else p ∷ rest

  -- `usize mem::get_free_space ()`
  unfoldable pub free_space_loop : List P → ℕ → ℕ
  free_space_loop [] out = out
  free_space_loop (p ∷ ps) out = free_space_loop ps (add64 out (o.get_free_space p))
