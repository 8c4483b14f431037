-- ===== src/Boot.antt =====
-- maestro.go: StartAll, which starts every service in a goroutine of its own.
mod Defs
pub mod Objects
pub mod Knowledge
pub mod Order
pub mod Refinement
pub mod StartAll
pub mod Checks
pub mod Reports
pub mod Returns
pub mod Serving
pub mod Waits
pub mod Crashes
pub mod Moves
pub mod Progress
pub mod Ranks
pub mod Ends
pub mod Smooth
pub mod Completes
pub mod Later
pub mod Absent
pub mod Stranded
pub mod Cancelled
pub mod Attempts
unfoldable pub use Defs.*
