-- ===== src/Retry.antt =====
-- maestro.go: the retry loops of `start` and `stop`, which are the same but for the method they call.
mod Defs
pub mod Rounds
pub mod Ends
pub mod Waits
unfoldable pub use Defs.*
