-- ===== src/Machine.antt =====
-- The small parts next to the hardware: ports, timer, interrupt controller, descriptor table,
-- interrupt flag, spin lock and the boot loader's table. Port access is a list of writes, and what
-- a port is read as is an argument.
pub mod Timer
pub mod Pic
pub mod Gdt
pub mod Irq
pub mod Spinlock
pub mod Boot
mod Tests
use cpp_os.Base.{ℕ, List, [], ◌∷◌, ◌==◌, if◌then◌else◌}

-- One `outb (port, data)`.
pub record Write : Type 0 where
  pub port : ℕ
  pub value : ℕ

abbrev pub outb : ℕ → ℕ → Write
outb port value = record { port = port; value = value }

-- What a list of writes sends to one port, in order.
abbrev pub sent : ℕ → List Write → List ℕ
sent p [] = []
sent p (w ∷ ws) = if w.port == p then w.value ∷ sent p ws else sent p ws
