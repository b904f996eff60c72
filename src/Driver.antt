-- ===== src/Driver.antt =====
-- src/driver: the keyboard and the screen.
pub mod Ps2
pub mod Vga
mod Tests
