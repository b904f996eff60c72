-- ===== src/Mem/Buddy/Blocks/Runs.antt =====
-- Any use of an allocator of src/mem/pmem.cpp: calls of `alloc` and `free`, and what the owners of
-- blocks write into them.
use cpp_os.Base.{
  ℕ, suc, ◌+◌, ◌^◌, ◌<◌, ◌≤◌, ◌≡◌, refl, false, List, ◌==◌, arith, Bool-cases, ne→==, inl, inr,
}
use cpp_os.Mem.Buddy.{Pallocator, at, alloc, free, get_order}
use cpp_os.Mem.Buddy.Blocks.{block_size, count-le-total, count_positive}
use cpp_os.Mem.Buddy.Blocks.Aligned.{pow_double}
use cpp_os.Mem.Buddy.Blocks.Whole.{IsWhole, IsLive, live_counts}
use cpp_os.Mem.Buddy.Blocks.Free.{relisted, relisted-IsWhole}
use cpp_os.Mem.Buddy.Blocks.Release.{remove_live}
use cpp_os.Mem.Buddy.Blocks.Returned.{free-IsWhole}
use cpp_os.Mem.Buddy.Blocks.Handed.{with_live, oalloc-IsWhole}

-- A word at an address; a free block keeps its size in one.
abbrev pub write : Pallocator → ℕ → ℕ → Pallocator
write p x v = relisted p p.lists (at p.zone_n x v) p.free_space

-- One step of the kernel: the allocator and the blocks that are handed out, with their orders. A block
-- is freed by an address in its first granule, and its owner writes anywhere in it.
pub data Step : Pallocator → List (ℕ × ℕ) → Pallocator → List (ℕ × ℕ) → Type 0 where
  allocate :
      (p : Pallocator) (live : List (ℕ × ℕ)) (n : ℕ)
      → Step p live (alloc p n).1 (with_live (alloc p n).0 (get_order p n) live)
  release :
      (p : Pallocator) (live : List (ℕ × ℕ)) (a o mem : ℕ)
      → IsLive a o live
      → a ≤ mem
      → mem < a + 2 ^ p.fo_bits
      → Step p live (free p mem) (remove_live a live)
  store :
      (p : Pallocator) (live : List (ℕ × ℕ)) (a o x v : ℕ)
      → IsLive a o live
      → a ≤ x
      → x < a + block_size p o
      → Step p live (write p x v) live

pub data Run (p : Pallocator) (live : List (ℕ × ℕ)) : Pallocator → List (ℕ × ℕ) → Type 0 where
  here : Run p live p live
  next :
      {q : Pallocator} {live' : List (ℕ × ℕ)} {r : Pallocator} {live'' : List (ℕ × ℕ)}
      → Run p live q live'
      → Step q live' r live''
      → Run p live r live''

alloc-IsWhole :
    (p : Pallocator) (live : List (ℕ × ℕ)) (n : ℕ)
    → IsWhole p live
    → IsWhole (alloc p n).1 (with_live (alloc p n).0 (get_order p n) live)
unfolding alloc
alloc-IsWhole p live n w = elim (Bool-cases (n == 0)) [
  | inl none_asked ↦ rw none_asked w
  | inr some_asked ↦ rw some_asked (oalloc-IsWhole p live (get_order p n) w).1
]

-- What an owner writes is in no free block.
write-IsWhole :
    (p : Pallocator) (live : List (ℕ × ℕ)) (a o x v : ℕ)
    → IsWhole p live
    → IsLive a o live
    → a ≤ x
    → x < a + block_size p o
    → IsWhole (write p x v) live
write-IsWhole p live a o x v w i lo hi =
    relisted-IsWhole p live p.lists (at p.zone_n x v) p.free_space w
      (record {
        sized = λ c z hc j.
            (let (positive, aligned, stored) = w.sound.sized c z hc j in
              let other : (z == x) ≡ false = ne→== _ _ (λ e. ground (
                arith,
                e,
                w.parts z,
                live_counts p.fo_bits live a o z i (omega (arith, e)) (omega (arith, e)),
                count_positive (block_size p c) (p.lists c) z (pow_double (c + p.fo_bits)).1 j,
                count-le-total p.fo_bits p.lists c (suc p.max_order) z (omega arith),
              )) in
              (positive, aligned, rw other stored));
        apart = w.sound.apart;
      })
      (λ y. refl)

Step-IsWhole :
    {p : Pallocator} {live : List (ℕ × ℕ)} {q : Pallocator} {live' : List (ℕ × ℕ)}
    → Step p live q live'
    → IsWhole p live
    → IsWhole q live'
Step-IsWhole (allocate p live n) w = alloc-IsWhole p live n w
Step-IsWhole (release p live a o mem i lo hi) w = (free-IsWhole p live a o mem w i lo hi).0
Step-IsWhole (store p live a o x v i lo hi) w = write-IsWhole p live a o x v w i lo hi

-- The memory stays whole through every run of allocations, releases and writes of the owners into
-- their blocks: no two blocks overlap, free or handed out, none reaches past the bounds, and no byte
-- between them is lost.
pub Run-IsWhole :
    {p : Pallocator} {live : List (ℕ × ℕ)} {q : Pallocator} {live' : List (ℕ × ℕ)}
    → Run p live q live'
    → IsWhole p live
    → IsWhole q live'
Run-IsWhole here w = w
Run-IsWhole (next run step) w = Step-IsWhole step (Run-IsWhole run w)
