-- ===== src/Sched.antt =====
-- src/sched: threads and their scheduling, semaphores, processes.
pub mod Thread
pub mod Semaphore
pub mod Process
pub mod Elf
pub mod Create
pub mod Spawn
mod Tests
