-- ===== src/Util.antt =====
-- src/util and include/util: alignment and bit fields, arithmetic, strings and containers.
pub mod Misc
pub mod Math
pub mod LinkedList
pub mod LinkedList2
pub mod ArrayList
pub mod Str
mod Tests
