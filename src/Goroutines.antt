-- ===== src/Goroutines.antt =====
-- maestro.go: what the goroutines of StartAll and those of StopAll have in common.
mod Defs
pub mod Grows
pub mod Attempts
pub mod Ledger
pub mod Ranks
pub mod Serving
pub mod Silence
pub mod Waiters
unfoldable pub use Defs.*
