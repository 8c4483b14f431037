-- ===== src/Shutdown.antt =====
-- maestro.go: StopAll, which stops every service in a goroutine of its own.
mod Defs
pub mod Objects
pub mod Knowledge
pub mod Order
pub mod Launch
pub mod Effects
pub mod StopAll
pub mod Reports
pub mod Returns
pub mod Serving
pub mod Waits
pub mod Ranks
pub mod Moves
pub mod Progress
pub mod Ends
pub mod Smooth
pub mod Completes
pub mod Orderly
pub mod Later
pub mod AfterBoot
pub mod Cycle
pub mod Attempts
unfoldable pub use Defs.*
