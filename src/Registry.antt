-- ===== src/Registry.antt =====
-- maestro.go: the registry of services, and what AddService makes of it.
mod Defs
pub mod Add
pub mod Valid
unfoldable pub use Defs.*
