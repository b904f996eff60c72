-- ===== src/Mem/Tests/Whole.antt =====
-- The theorems on the whole memory of an allocator of src/mem/pmem.cpp, at one of four pages.
use cpp_os.Base.{
  ℕ, List, ◌||◌, ◌≤◌, ◌+◌, ◌⊎◌, [], ◌∷◌, ◌≡◌, ◌≢◌, ◌↔◌, refl, inl, inr, false, ◌==◌, if◌then◌else◌,
  arith, IsIn, max, some, Bool-cases, ==→eq, subst, sym,
}
use cpp_os.Mem.Buddy.{Pallocator, oalloc, free, alloc, get_order, get_meta}
use cpp_os.Mem.Buddy.Init.{set_up, init}
use cpp_os.Mem.Buddy.Blocks.Apart.{Run_apart}
use cpp_os.Mem.Buddy.Blocks.Initial.{init-IsWhole}
use cpp_os.Util.Misc.{align_up, align_down}
use cpp_os.Mem.Buddy.Populate.{HasZone}
use cpp_os.Mem.Buddy.Blocks.{IsSound, SameFrame}
use cpp_os.Mem.Buddy.Blocks.Whole.{IsWhole}
use cpp_os.Mem.Buddy.Blocks.Handed.{with_live, oalloc-IsWhole}
use cpp_os.Mem.Buddy.Blocks.Returned.{free-IsWhole}
use cpp_os.Mem.Buddy.Blocks.Runs.{allocate, store, release, here, next, write, Run-IsWhole}

-- Four pages at 16384, all of them free.
abbrev four_pages : Pallocator
four_pages = record {
  lists = λ k. if k == 2 then 16384 ∷ [] else [];
  zone_n = λ a. 16384;
  alloced = λ m. false;
  order = λ m. 0;
  start_addr = 16384;
  end_addr = 32768;
  first_order_size = 4096;
  free_space = 16384;
  fo_bits = 12;
  max_order = 2;
}

-- The same pages, handed out as one block.
abbrev pages_taken : Pallocator
pages_taken = record four_pages {
  lists = λ k. [];
  alloced = λ m. m == 0;
  order = λ m. 2;
  free_space = 0;
}

only_block : (o z : ℕ) → IsIn z (four_pages.lists o) → (o ≡ 2) × (z ≡ 16384)
only_block o z i = elim (Bool-cases (o == 2)) [
  | inl second ↦ elim (subst (λ b. IsIn z (if b then 16384 ∷ [] else [])) second i) [
    | inl e ↦ (==→eq o 2 second, e)
    | inr none_left ↦ absurd none_left
  ]
  | inr other ↦ absurd (subst (λ b. IsIn z (if b then 16384 ∷ [] else [])) other i)
]

four_pages-IsSound : IsSound four_pages
four_pages-IsSound = record {
  sized = λ o z le i.
      let (second, first) = only_block o z i in rw (second, first) (omega arith, (1, refl), refl);
  apart = λ x. ground arith;
}

four_pages-IsWhole : IsWhole four_pages []
four_pages-IsWhole = record {
  sound = four_pages-IsSound;
  laid = record {
    granule = refl;
    start = (4, refl);
    nonnull = omega arith;
    small = omega arith;
    words = omega arith;
    top = λ r lo. omega arith;
  };
  parts = λ x. ground arith;
  handed = λ a o i. absurd i;
  marked = λ x inside marks. absurd (ground (arith, marks));
}

pages_taken-IsWhole : IsWhole pages_taken ((16384, 2) ∷ [])
unfolding get_meta
pages_taken-IsWhole = record {
  sound = record { sized = λ o z le i. absurd i; apart = λ x. omega arith };
  laid = record {
    granule = refl;
    start = (4, refl);
    nonnull = omega arith;
    small = omega arith;
    words = omega arith;
    top = λ r lo. omega arith;
  };
  parts = λ x. ground arith;
  handed = λ a o i. elim i [
    | inl e ↦ rw (e.0, e.1) (omega arith, (1, refl), refl, refl)
    | inr none_left ↦ absurd none_left
  ];
  marked = λ x inside marks. (16384, 2, inl (refl, refl), sym (==→eq _ _ marks));
}

oalloc-IsWhole_example :
    (((oalloc four_pages 2).0 ≢ 0) ↔ HasZone four_pages 2)
    × IsWhole (oalloc four_pages 2).1 (with_live (oalloc four_pages 2).0 2 [])
    × SameFrame four_pages (oalloc four_pages 2).1
oalloc-IsWhole_example = oalloc-IsWhole four_pages [] 2 four_pages-IsWhole

free-IsWhole_example :
    IsWhole (free pages_taken 16390) [] × SameFrame pages_taken (free pages_taken 16390)
free-IsWhole_example =
    free-IsWhole pages_taken ((16384, 2) ∷ []) 16384 2 16390 pages_taken-IsWhole (inl (refl, refl))
      (omega arith) (omega arith)

Run-IsWhole_example : IsWhole (alloc (free (write pages_taken 20480 7) 16390) 5000).1 (
    with_live
      (alloc (free (write pages_taken 20480 7) 16390) 5000).0
      (get_order (free (write pages_taken 20480 7) 16390) 5000)
      [])
Run-IsWhole_example =
    Run-IsWhole
      (next
        (next
          (next here (
            store pages_taken ((16384, 2) ∷ []) 16384 2 20480 7 (inl (refl, refl)) (omega arith)
              (omega arith)))
          (release (write pages_taken 20480 7) ((16384, 2) ∷ []) 16384 2 16390 (inl (refl, refl))
            (omega arith) (omega arith)))
        (allocate (free (write pages_taken 20480 7) 16390) [] 5000))
      pages_taken-IsWhole

-- Nine pages and the table behind them.
abbrev no_pages : Pallocator
no_pages = record four_pages { lists = λ k. []; max_order = 0 }

abbrev pages_set_up : Pallocator
pages_set_up = set_up no_pages 0xffffffff80001000 0xffffffff8000afff 4096

pages_set_up-bounds :
    (pages_set_up.start_addr ≡ 0xffffffff80001000)
    × (pages_set_up.end_addr ≡ 0xffffffff80009000)
    × (align_down 0xffffffff8000afff (max 4096 4096) ≡ 0xffffffff8000a000)
unfolding set_up align_up align_down
pages_set_up-bounds = (refl, refl, refl)

init-IsWhole_example :
    (p' : Pallocator) × (init 40000 no_pages 0xffffffff80001000 0xffffffff8000afff 4096 ≡ some p')
    × IsWhole p' []
    × (p'.start_addr ≡ pages_set_up.start_addr)
    × (p'.end_addr ≡ pages_set_up.end_addr)
init-IsWhole_example =
    let (s, e, d) = pages_set_up-bounds in
    init-IsWhole 40000 no_pages 0xffffffff80001000 0xffffffff8000afff 4096 12 refl (omega arith)
      (omega arith) (λ o. refl) refl (omega (arith, s)) (omega (arith, s, d)) (omega (arith, s, e))
      (omega (arith, s, e)) (omega (arith, s, e)) (omega (arith, s, e))

-- The four pages as two blocks that are handed out.
abbrev halves_taken : Pallocator
halves_taken = record pages_taken { alloced = λ m. (m == 0) || (m == 2); order = λ m. 1 }

abbrev both_halves : List (ℕ × ℕ)
both_halves = (16384, 1) ∷ (24576, 1) ∷ []

halves_taken-IsWhole : IsWhole halves_taken both_halves
unfolding get_meta
halves_taken-IsWhole = record {
  sound = record { sized = λ o z le i. absurd i; apart = λ x. omega arith };
  laid = record {
    granule = refl;
    start = (4, refl);
    nonnull = omega arith;
    small = omega arith;
    words = omega arith;
    top = λ r lo. omega arith;
  };
  parts = λ x. ground arith;
  handed = λ a o i. elim i [
    | inl e ↦ rw (e.0, e.1) (omega arith, (2, refl), refl, refl)
    | inr j ↦ elim j [
      | inl e ↦ rw (e.0, e.1) (omega arith, (3, refl), refl, refl)
      | inr none_left ↦ absurd none_left
    ]
  ];
  marked = λ x inside marks. elim (Bool-cases (get_meta halves_taken x == 0)) [
    | inl lower ↦ (16384, 1, inl (refl, refl), sym (==→eq _ _ lower))
    | inr upper ↦ (24576, 1, inr (inl (refl, refl)), ground (arith, marks, upper))
  ];
}

Run_apart_example :
    (16384 ≤ 16384) × (16384 + 8192 ≤ 32768) × ((16384 + 8192 ≤ 24576) ⊎ (24576 + 8192 ≤ 16384))
Run_apart_example =
    Run_apart halves_taken both_halves (write halves_taken 20480 7) both_halves 16384 1 24576 1
      halves_taken-IsWhole
      (next here (
        store halves_taken both_halves 16384 1 20480 7 (inl (refl, refl)) (omega arith)
          (omega arith)))
      (inl (refl, refl)) (inr (inl (refl, refl))) (omega arith)
