-- ===== src/Lib.antt =====
-- cpp_os: models of a 64-bit x86 kernel written in C++, and what is proved of them.
--
-- The kernel's parts, and how they meet. A timer interrupt enters src/int/int.cpp, which runs the
-- handlers of its vector; the scheduler's handler in src/sched/thread.cpp wakes sleeping threads and
-- may switch. Threads belong to processes (src/sched/process.cpp), each with an address space
-- (src/mem/vmem.cpp) and a table of semaphores. Address spaces take pages from the memory nodes
-- (src/mem/mem.cpp), each of which is a buddy allocator (src/mem/pmem.cpp); kernel objects come from
-- the heap (src/mem/kmem.cpp). The lists of threads, zones and free blocks are the intrusive list of
-- src/util/linked_list.cpp, the tables of pointers the array of include/util/array_list.hpp.
--
-- Which file models which part:
--   Base            shared names, Boolean tests, lists, binary digits, signed integers
--   Util/Misc       src/util/misc.cpp: align_up, align_down, align_of, get_bits, canonical_addr
--   Util/Math       src/util/math.cpp and src/arch/x64/util/math.asm
--   Util/Str        src/util/string.cpp
--   Util/LinkedList src/util/linked_list.cpp: the nodes' fields are functions on addresses, and
--                   Chain says which sequence a list holds; Access has what a caller that reads
--                   the list by index meets
--   Util/ArrayList  include/util/array_list.hpp: a buffer, and none for an access outside it
--   Sched/Thread    src/sched/thread.cpp: the lists by state, schedule, the two handlers, sleeping
--   Sched/Create    src/sched/thread.cpp and src/sched/process.cpp: new threads, their end, the cleaner
--   Sched/Spawn     the same files: process::new_thread, thread::init, sched::init, proc_init
--   Sched/Semaphore the semaphores of src/sched/thread.cpp
--   Sched/Process   src/sched/process.cpp: create_semaphore, delete_semaphore, get_semaphore
--   Sched/Elf       src/sched/process.cpp: load_elf, with the calls it makes as a list
--   Mem/Zones       src/mem/vmem.cpp: insert_virt_zone, get_free_space, find_address
--   Mem/Pages       src/mem/vmem.cpp: the page tables, with memory as words by address
--   Mem/Collect     src/mem/vmem.cpp: collect_phys_zones, over the allocators' two calls
--   Mem/Space       src/mem/vmem.cpp: the calls of an address space, over its zones and tables
--   Mem/Buddy       src/mem/pmem.cpp: init, oalloc, free, populate_order, merge_order,
--                   get_space; Resize has realloc and the calls that clear a block, and Blocks
--                   relates the free lists and the metadata to the addresses they stand for
--   Mem/Nodes       src/mem/mem.cpp: the calls that pick a node, over a record of its operations,
--                   and the nodes made of the boot loader's memory map
--   Mem/Kmem        src/mem/kmem.cpp: kalloc, kfree, krealloc, grow_heap
--   Driver/Ps2      src/driver/ps2.cpp: the ring of scan codes and the key map
--   Driver/Vga      src/driver/vga_tty.cpp: the screen buffer and the cursor
--   Interrupt       src/int/int.cpp: the gates, the slots of handlers, and what runs them, with
--                   src/arch/x64/int/int.asm; Start has what src/init.cpp registers and Faults
--                   its handlers of faults, Keys those of the keyboard; Typed has the widths
--                   of a gate's fields; Syscall has the system calls, from
--                   libcpp/src/syscall.cpp to src/syscall/syscall.cpp
--   Machine         src/time/pit.cpp, src/int/pic.cpp, src/gdt.cpp, src/arch/x64/common.cpp,
--                   src/sync/spinlock.cpp with src/arch/x64/sync/spinlock.asm, and src/mb2.cpp
--   Output          src/util/io.cpp: kprintf_internal and its two sinks; Fatal has assert_fail
-- A module named Tests applies the theorems at small inputs.
--
-- Words of 64 bits are natural numbers with the wrap written out (add64, sub64). The scheduler's
-- lists, the free lists of the buddy allocator and the zones are sequences: Util/LinkedList relates
-- the list's code to them. Interrupts are disabled inside the scheduler's and the semaphores'
-- operations, so each is one step; there is one processor. An interrupt that the kernel raises for
-- itself is the call of its handler: after a switch, what stands behind the call in the code runs when
-- the thread is switched to again. The build is the default one, where assert evaluates its argument.
--
-- The list's operator [] goes by a cursor, which a removal elsewhere can leave at a wrong node. The
-- timer's handler and free_mem take the cursor as an argument and give none where it is not right for
-- the list, since the code then reads another node; insert_virt_zone puts the zone where the code's
-- insertion puts it. The other calls of an address space take the cursor of its zones to be right.
--
-- A port is written by adding to a list, and what it is read as is an argument. The processors that
-- share the spin lock take single instructions in any order.
--
-- Bounds and fuel. Lengths of linked lists are below 2 ^ 63, indices in the cursor's walk below
-- 2 ^ 31. wake_loop gets the number of sleeping threads as fuel and each round wakes or passes one;
-- kbd_read gets 32 rounds, the size of the ring; vga_append a round for each character and one more;
-- populate_order and merge_order one for each order up to the highest. kalloc_loop, kfree_loop
-- and krealloc_loop run on fuel for the chunks of the list, and none is a null pointer that the code
-- follows or fuel that is short.
-- The walk through the page tables gets 513 rounds at each level; the search of the boot table a
-- round for each tag and one more; the destructor of a list a round for each node and one more.
-- The cleaner gets a round for each thread to be deleted and one more; collect_loop the bytes that are
-- left and the size of a block, since each round takes a block or halves the size.
-- The loop of init gets a round for each byte of the range and one more, the halving of a zone's size
-- as many as the size, the destructor of an address space one for each zone and one more.
--
-- Not modelled: assembly stubs and boot code other than the spin lock and what the interrupt
-- entries call; the slab allocator, which nothing uses; the order in which init calls the parts,
-- other than its registrations of handlers; printing of the state; the user library except its
-- system calls, and the way back from them; src/main.cpp, which is trials of the allocators. What
-- the allocators return for a thread's stacks and for a new object is an argument. Whether krealloc
-- finds memory is a flag of the array's operations. The buddy allocator's realloc can take a block
-- off a list that it is not on, and so follow links in memory that holds none: there its model is
-- none.
pub mod Base
pub mod Util
pub mod Sched
pub mod Mem
pub mod Driver
pub mod Interrupt
pub mod Machine
pub mod Output
