-- ===== src/Ready.antt =====
-- maestro.go: ServiceReady, which waits for a service to be started.
mod Defs
pub mod Open
pub mod Answers
unfoldable pub use Defs.*
