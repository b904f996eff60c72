-- ===== src/Mem/Buddy/Resize/Shrunk.antt =====
-- `realloc` of src/mem/pmem.cpp to no higher order.
