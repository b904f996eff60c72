-- ===== src/Mem/Tests.antt =====
-- The theorems on src/mem at small states.
mod Whole
use cpp_os.Base.{
  ◌≡◌, ◌≢◌, ◌↔◌, refl, [], ◌∷◌, true, false, none, some, ◌==◌, if◌then◌else◌, arith, ◌+◌, ◌^◌, ℕ,
  List, ◌≤◌, ◌-◌, inr, get_or, Option,
}
use cpp_os.Mem.Pages.{Pages}
use cpp_os.Mem.Pages.Walk.{map_internal, unmap_internal}
use cpp_os.Mem.Pages.Walk.Ends.{Ends, map_internal-Ends}
use cpp_os.Mem.Space.{Entry, Space}
use cpp_os.Mem.Space.Alloc.{free_mem}
use cpp_os.Mem.Space.Alloc.Free.{free_mem-frees}
use cpp_os.Mem.Zones.{map as map_type, Zone, kernel, valloc, zone_position}
use cpp_os.Mem.Buddy.{Pallocator, oalloc}
use cpp_os.Mem.Nodes.Setup.{init_nodes}
use cpp_os.Mem.Nodes.Table.{mem_init, mem_init-init_nodes}
use mathlib.Core.Option
use cpp_os.Util.Misc.{align_up, align_down}

abbrev low_zone : Zone
low_zone = record { virt_addr = 4096; len = 8192; type = valloc; node = 65536 }

abbrev kernel_zone : Zone
kernel_zone = record { virt_addr = 2 ^ 47; len = 2 ^ 47; type = kernel; node = 65600 }

abbrev new_zone : Zone
new_zone = record { virt_addr = 20480; len = 4096; type = valloc; node = 65664 }

new_zone-position : zone_position none (low_zone ∷ kernel_zone ∷ []) new_zone ≡ some 1
unfolding zone_position
new_zone-position = refl

-- One zone of order 2 at 16384.
abbrev one_zone : Pallocator
one_zone = record {
  lists = λ k. if k == 2 then 16384 ∷ [] else [];
  zone_n = λ a. 16384;
  alloced = λ a. false;
  order = λ a. 0;
  start_addr = 4096;
  end_addr = 1048576;
  first_order_size = 4096;
  free_space = 16384;
  fo_bits = 12;
  max_order = 3;
}

one_zone_got : (oalloc one_zone 2).0 ≢ 0
unfolding oalloc
one_zone_got e = absurd (ground (arith, e))

-- An allocator that is a range, with the number of bytes that it has left.
abbrev Range : Type 0
Range = ℕ × ℕ × ℕ

aligned : align_up 100 16 ≡ 112
unfolding align_up
aligned = refl

aligned_down : align_down 1024 16 ≡ 1024
unfolding align_down
aligned_down = refl

-- Memory of zeros with two pages left.
abbrev empty_pages : Pages
empty_pages = record { words = λ _. 0; pool = 0x10000 ∷ 0x11000 ∷ []; freed = [] }

map_internal-Ends_example :
    Ends (map_internal empty_pages 0x8000 0x20000 0x400000 8192 2)
    × Ends (unmap_internal empty_pages 0x8000 0x400000 8192)
map_internal-Ends_example = map_internal-Ends empty_pages 0x8000 0x20000 0x400000 8192 2

-- An address space with a mapped zone.
abbrev mapped_entry : Entry
mapped_entry = record {
  zone = record { virt_addr = 0x400000; len = 8192; type = map_type; node = 0x9000 };
  allocations = [];
  flags = 0;
  phys_addr = 0x20000;
}

abbrev small_space : Space
small_space = record {
  virt_allocs = mapped_entry ∷ [];
  pages = empty_pages;
  pml4_table = 0x8000;
  current = true;
  synced = [];
}

-- A zone of one block.
abbrev block_entry : Entry
block_entry = record {
  zone = record { virt_addr = 0x200000; len = 4096; type = valloc; node = 0x9200 };
  allocations = record { addr = 0x30000; len = 4096 } ∷ [];
  flags = 0;
  phys_addr = 0;
}

abbrev owned_space : Space
owned_space = record small_space { virt_allocs = mapped_entry ∷ block_entry ∷ [] }

-- The allocators as the blocks that were given back.
abbrev no_alloc : List ℕ → ℕ → ℕ × List ℕ
no_alloc s n = (0, s)

abbrev given_back : List ℕ → ℕ → List ℕ
given_back s a = a ∷ s

block_start : align_down 0x200000 4096 ≡ 0x200000
unfolding align_down
block_start = refl

free_mem-frees_example :
    (sp' : Space) × (free_mem no_alloc given_back (some (0x9200, 1)) owned_space [] 0x200000
      ≡ some (sp', 0x30000 ∷ []))
    × (sp'.virt_allocs ≡ mapped_entry ∷ [])
    × (sp'.synced ≡ [])
free_mem-frees_example =
    free_mem-frees no_alloc given_back (some (0x9200, 1)) owned_space [] 0x200000
      (mapped_entry ∷ []) [] block_entry refl block_start refl
      ((λ e. absurd (omega (arith, e))), tt) tt refl

-- A table of the boot loader at 0x1000, with a memory map of one entry: 128 MB from 1 MB on.
abbrev boot_table : List ℕ
boot_table =
    56 ∷ 0 ∷ 0 ∷ 0 ∷ 0 ∷ 0 ∷ 0 ∷ 0 ∷ 6 ∷ 0 ∷ 0 ∷ 0 ∷ 40 ∷ 0 ∷ 0 ∷ 0 ∷ 24 ∷ 0 ∷ 0 ∷ 0 ∷ 0 ∷ 0 ∷ 0 ∷ 0
    ∷ 0 ∷ 0 ∷ 16 ∷ 0 ∷ 0 ∷ 0 ∷ 0 ∷ 0 ∷ 0 ∷ 0 ∷ 0 ∷ 8 ∷ 0 ∷ 0 ∷ 0 ∷ 0 ∷ 1 ∷ 0 ∷ 0 ∷ 0 ∷ 0 ∷ 0 ∷ 0 ∷ 0
    ∷ 0 ∷ 0 ∷ 0 ∷ 0 ∷ 8 ∷ 0 ∷ 0 ∷ 0 ∷ []

abbrev boot_memory : ℕ → ℕ
boot_memory a = get_or boot_table (a - 0x1000) 0

boot_copy : align_up 0x1fff 8 ≡ 0x2000
unfolding align_up
boot_copy = refl

mem_init-init_nodes_example :
    mem_init 2 40000 boot_memory 0x1800 0x1fff 0 0x1000 (λ _. one_zone)
    ≡ Option.map
        (λ (made : (ℕ → Pallocator) × ℕ). (align_up 0x1fff 8, made))
        (init_nodes 40000 0x1800
          (0x1fff + 56)
          0
          (record { addr = 0x100000; len = 0x8000000; type = 1 } ∷ [])
          (λ _. one_zone)
          0)
mem_init-init_nodes_example =
    mem_init-init_nodes (record { type = 6; size = 40 } ∷ []) 40000 boot_memory 0x1800 0x1fff 0
      0x1000 (λ _. one_zone) 2 (inr (omega (arith, boot_copy))) (omega arith)
      (refl, omega arith, refl, omega arith, (refl, omega arith)) refl (omega arith)
