-- ===== src/Lifetime.antt =====
-- maestro.go: what holds of a Maestro however a program uses it.
mod Defs
pub mod Invariant
pub mod Registers
pub mod Keeps
pub mod Restart
pub use Defs.*
