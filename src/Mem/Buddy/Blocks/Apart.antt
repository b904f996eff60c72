-- ===== src/Mem/Buddy/Blocks/Apart.antt =====
-- Blocks that an allocator of src/mem/pmem.cpp has handed out.
use cpp_os.Base.{ℕ, ◌+◌, ◌<◌, ◌≤◌, ◌≢◌, ◌⊎◌, inl, inr, List, ltb, arith, Bool-cases, ltb→lt, ltb→ge}
use cpp_os.Mem.Buddy.{Pallocator}
use cpp_os.Mem.Buddy.Blocks.{block_size}
use cpp_os.Mem.Buddy.Blocks.Aligned.{pow_double}
use cpp_os.Mem.Buddy.Blocks.Whole.{IsWhole, IsLive, live_counts}
use cpp_os.Mem.Buddy.Blocks.Release.{
  remove_live, IsLive-remove_live_ne, live_count-remove_live, live_bounds, live_once,
}
use cpp_os.Mem.Buddy.Blocks.Runs.{Run, Run-IsWhole}

-- No address lies in two blocks that start at different ones.
not_both :
    {p : Pallocator} {live : List (ℕ × ℕ)} (w : IsWhole p live) (a o b c x : ℕ)
    → IsLive a o live
    → IsLive b c live
    → a ≢ b
    → a ≤ x
    → x < a + block_size p o
    → b ≤ x
    → x < b + block_size p c
    → ⊥
not_both {p} {live} w a o b c x i j ne lo hi lo' hi' =
    let rest = IsLive-remove_live_ne a b c live (λ e. ne (omega (arith, e))) j in
    ground (
      arith,
      live_once w x,
      live_count-remove_live p.fo_bits a o live x i (live_once w a),
      live_counts p.fo_bits (remove_live a live) b c x rest lo' hi',
    )

-- Blocks that were handed out and not freed never overlap and never leave the range, whatever was
-- allocated, freed and written before, where the run starts with whole memory.
pub Run_apart :
    (p : Pallocator) (live : List (ℕ × ℕ)) (q : Pallocator) (live' : List (ℕ × ℕ)) (a o b c : ℕ)
    → IsWhole p live
    → Run p live q live'
    → IsLive a o live'
    → IsLive b c live'
    → a ≢ b
    → (q.start_addr ≤ a)
      × (a + block_size q o ≤ q.end_addr)
      × ((a + block_size q o ≤ b) ⊎ (b + block_size q c ≤ a))
Run_apart p live q live' a o b c w run i j ne =
    let w' = Run-IsWhole run w in
    let (start, stop) = live_bounds w' a o i in
    let (_, some_bytes) = pow_double (o + q.fo_bits) in
    let (_, some_bytes') = pow_double (c + q.fo_bits) in
    (
      start,
      stop,
      elim (Bool-cases (ltb a b)) [
        | inl before ↦ elim (Bool-cases (ltb b (a + block_size q o))) [
          | inr behind ↦ inl (ltb→ge _ _ behind)
          | inl inside ↦ absurd (
              not_both w' a o b c b i j ne (omega (arith, ltb→lt _ _ before)) (ltb→lt _ _ inside)
                (omega arith) (omega (arith, some_bytes')))
        ]
        | inr after ↦ elim (Bool-cases (ltb a (b + block_size q c))) [
          | inr behind ↦ inr (ltb→ge _ _ behind)
          | inl inside ↦ absurd (
              not_both w' a o b c a i j ne (omega arith) (omega (arith, some_bytes))
                (ltb→ge _ _ after) (ltb→lt _ _ inside))
        ]
      ],
    )
