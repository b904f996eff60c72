-- ===== src/Mem.antt =====
-- src/mem: physical pages and address spaces.
pub mod Zones
pub mod Pages
pub mod Buddy
pub mod Nodes
pub mod Collect
pub mod Space
pub mod Kmem
mod Tests
