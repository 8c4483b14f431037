-- ===== src/Errors.antt =====
-- errors.go: the kinds of errors, the structure that carries one, and its text.
mod Defs
pub mod Text
pub mod Panics
pub use Defs.*
